-- ===== src/Relay/Hops.antt =====
-- The hop budget: what a node schedules, and how far a packet can travel.
use nowde.Prelude.{
  ℕ, zero, suc, ◌+◌, ◌≤◌, ◌<◌, ◌≡◌, refl, ◌∙◌, inl, inr, Bool, true, false, some, List, [], ◌∷◌,
  length, get_elem?, take, All, ltb, if◌then◌else◌, Bool-cases, if_both, if_cases, u8, u32, arith,
}
use nowde.Config.{max_hops}
use nowde.Wire.{Mac, mac_equal, media_sync_len}
use nowde.Relay.{
  PendingRelay, Relay, awaits, already_seen, origin_slot, suppress_pending, schedule, forward,
  handle_flood_candidate,
}
use nowde.Relay.Dedup.{suppress_pending-awaits}
use mathlib.Core.Path.{subst, sym}
use mathlib.Core.Option.{some-injective}
use mathlib.Core.Bool.{false≢true}

-- A forward in flight has taken one hop at least and is within the budget; its packet fits.
pub record PendingIsValid (p : PendingRelay) : Type 0 where
  pub hops : p.active ≡ true → (1 ≤ p.hop) × (p.hop ≤ max_hops)
  pub fits : length p.payload ≤ media_sync_len

length-take-le {ℓ} : {A : Type ℓ} (n : ℕ) (xs : List A) → length (take n xs) ≤ n
length-take-le zero xs = omega arith
length-take-le (suc n) [] = omega arith
length-take-le (suc n) (x ∷ xs) = omega (arith, length-take-le n xs)

suppress_pending-IsValid :
    (m : Mac) (seq : ℕ) (ps : List PendingRelay)
    → All PendingIsValid ps
    → All PendingIsValid (suppress_pending m seq ps)
unfolding suppress_pending
suppress_pending-IsValid m seq [] v = tt
suppress_pending-IsValid m seq (p ∷ ps) v =
    let rest = suppress_pending-IsValid m seq ps v.1 in
    (
      elim (Bool-cases (awaits m seq p)) [
        | inl e ↦ rw e (record { hops = λ h. cc; fits = v.0.fits })
        | inr e ↦ rw e v.0
      ],
      rest,
    )

pub schedule-All {ℓ} :
    (P : PendingRelay → Type ℓ) (q : PendingRelay) (ps : List PendingRelay)
    → P q
    → All P ps
    → All P (schedule q ps)
unfolding schedule
schedule-All P q [] h v = tt
schedule-All P q (p ∷ ps) h v =
    if_both (All P) p.active (p ∷ schedule q ps) (q ∷ ps) (v.0, schedule-All P q ps h v.1) (h, v.1)

forward-IsValid :
    (m : Mac) (seq hop : ℕ) (inner : List ℕ) (t : ℕ) (ps : List PendingRelay)
    → hop < 255
    → All PendingIsValid ps
    → All PendingIsValid (forward m seq hop inner t ps)
unfolding forward
forward-IsValid m seq hop inner t ps h v =
    if_cases (All PendingIsValid) (ltb max_hops (u8 (hop + 1))) ps _ (λ _. v)
      λ e.
        schedule-All PendingIsValid _ ps
          (record { hops = λ _. (omega arith, ground arith); fits = length-take-le 31 inner }) v

-- A frame whose hop byte is below 255 leaves only forwards that have taken one to MAX_HOPS hops
-- and carry at most 31 bytes, if there were no others before.
pub handle_flood_candidate-IsValid :
    (my_mac origin : Mac) (now delay seq hop : ℕ) (inner : List ℕ) (is_relay : Bool) (r : Relay)
    → hop < 255
    → All PendingIsValid r.pending
    → All PendingIsValid
        (handle_flood_candidate my_mac now delay origin seq hop inner is_relay r).pending
unfolding handle_flood_candidate
handle_flood_candidate-IsValid my_mac origin now delay seq hop inner is_relay r h v =
    if_both (λ q. All PendingIsValid q.pending) (mac_equal origin my_mac) r _ v
      (if_both (All PendingIsValid) _ pending _ kept
        (forward-IsValid origin seq hop inner (u32 (now + delay)) pending h kept))
  where
    pending : List PendingRelay
    pending = if is_relay then suppress_pending origin seq r.pending else r.pending

    kept : All PendingIsValid pending
    kept =
        if_both (All PendingIsValid) is_relay _ r.pending
          (suppress_pending-IsValid origin seq r.pending v) v

-- One forward of a packet heard with hop byte `hop`: a node that has no forward of it pending, and
-- handles it, then holds one with hop byte `hop'`.
pub record Forwards (hop hop' : ℕ) : Type 0 where
  pub my_mac : Mac
  pub origin : Mac
  pub now : ℕ
  pub delay : ℕ
  pub seq : ℕ
  pub inner : List ℕ
  pub is_relay : Bool
  pub before : Relay
  pub none_pending : All (λ p. awaits origin seq p ≡ false) before.pending
  pub index : ℕ
  pub held : PendingRelay
  pub holds :
      get_elem?
        (handle_flood_candidate my_mac now delay origin seq hop inner is_relay before).pending
        index
      ≡ some held
  pub awaited : awaits origin seq held ≡ true
  pub stamped : held.hop ≡ hop'

-- A packet that has been forwarded `n` times, from node to node, bears hop byte `hop`.
pub data Travelled : ℕ → ℕ → Type 0 where
  minted : Travelled 0 0
  relayed : {n hop hop' : ℕ} → Travelled n hop → Forwards hop hop' → Travelled (suc n) hop'

get_elem?-All {ℓ κ} :
    {A : Type ℓ} (P : A → Type κ) (xs : List A) (k : ℕ) (a : A)
    → All P xs
    → get_elem? xs k ≡ some a
    → P a
get_elem?-All P [] k a v g = cc
get_elem?-All P (x ∷ xs) zero a v g = subst P (some-injective x a g) v.0
get_elem?-All P (x ∷ xs) (suc k) a v g = get_elem?-All P xs k a v.1 g

-- What a forward of the packet says of its hop byte.
abbrev Stamped : Mac → ℕ → ℕ → PendingRelay → Type 0
Stamped m seq hop p = awaits m seq p ≡ true → (p.hop ≡ u8 (hop + 1)) × (p.hop ≤ max_hops)

All-Stamped :
    (m : Mac) (seq hop : ℕ) (ps : List PendingRelay)
    → All (λ p. awaits m seq p ≡ false) ps
    → All (Stamped m seq hop) ps
All-Stamped m seq hop [] v = tt
All-Stamped m seq hop (p ∷ ps) v =
    (λ e. absurd (false≢true (sym v.0 ∙ e)), All-Stamped m seq hop ps v.1)

handle_flood_candidate-Stamped :
    (my_mac origin : Mac) (now delay seq hop : ℕ) (inner : List ℕ) (is_relay : Bool) (r : Relay)
    → All (λ p. awaits origin seq p ≡ false) r.pending
    → All
        (Stamped origin seq hop)
        (handle_flood_candidate my_mac now delay origin seq hop inner is_relay r).pending
unfolding handle_flood_candidate
handle_flood_candidate-Stamped my_mac origin now delay seq hop inner is_relay r none_pending =
    if_both (λ q. All P q.pending) (mac_equal origin my_mac) r _
      (All-Stamped origin seq hop r.pending none_pending)
      (if_both (All P) (already_seen r.origins seq (origin_slot r.origins origin)) pending _ kept (
        if_cases (All P) (ltb max_hops (u8 (hop + 1))) pending _ (λ _. kept)
          λ e. schedule-All P _ pending (λ _. (refl, ground arith)) kept))
  where
    P : PendingRelay → Type 0
    P = Stamped origin seq hop

    pending : List PendingRelay
    pending = if is_relay then suppress_pending origin seq r.pending else r.pending

    kept : All P pending
    kept = All-Stamped origin seq hop pending (
        if_both (All (λ p. awaits origin seq p ≡ false)) is_relay _ r.pending
          (suppress_pending-awaits origin seq r.pending) none_pending)

Forwards-hop : {hop hop' : ℕ} → Forwards hop hop' → (hop' ≡ u8 (hop + 1)) × (hop' ≤ max_hops)
Forwards-hop {hop} f =
    let at =
      get_elem?-All (Stamped f.origin f.seq hop) _ f.index f.held
        (handle_flood_candidate-Stamped f.my_mac f.origin f.now f.delay f.seq hop f.inner f.is_relay
          f.before f.none_pending)
        f.holds f.awaited in
    omega (arith, at, f.stamped)

-- Flooding stops: along any chain of nodes a packet is forwarded at most MAX_HOPS times after its
-- master sent it, and its hop byte counts the forwards.
pub Travelled-le-max_hops : {n hop : ℕ} → Travelled n hop → (hop ≡ n) × (n ≤ max_hops)
Travelled-le-max_hops minted = (refl, omega arith)
Travelled-le-max_hops (relayed {n} {hop} {hop'} t f) =
    let (same, few) = Travelled-le-max_hops t in
    let (stamp, within) = Forwards-hop f in (omega arith, omega arith)
