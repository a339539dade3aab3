-- ===== src/Relay/Dedup.antt =====
-- The origin table is a map from masters to the last sequence number handled.
use nowde.Prelude.{
  ℕ, zero, suc, ◌<◌, ◌≡◌, refl, ap, ◌∙◌, ◌≢◌, ◌⊎◌, inl, inr, Bool, true, false, Option, none, some,
  List, [], ◌∷◌, length, get_elem?, set, take, All, ◌==◌, if◌then◌else◌, Bool-cases, arith,
}
use nowde.Wire.{Mac, mac_equal}
use nowde.Wire.RoundTrip.{mac_equal-eq, mac_equal_refl}
use nowde.Slots.{full, Misses, find_slot-cases}
use nowde.Relay.{
  RelayOriginEntry, PendingRelay, Relay, knows, unused, already_seen, mark_seen, origin_slot,
  awaits, suppress_pending, handle_flood_candidate,
}

-- The abstract view: what the table holds for a master.
unfoldable pub last_seen : List RelayOriginEntry → Mac → Option ℕ
last_seen [] m = none
last_seen (e ∷ t) m = if knows m e then some e.last_seq else last_seen t m

abbrev marked : Mac → ℕ → RelayOriginEntry
marked m seq = record { mac = m; last_seq = seq; valid = true }

knows-marked : (m m' : Mac) (seq : ℕ) → knows m' (marked m seq) ≡ mac_equal m m'
knows-marked m m' seq = refl

module _ (m : Mac) where
  last_seen-hit :
      (t : List RelayOriginEntry) (k : ℕ) (e : RelayOriginEntry)
      → get_elem? t k ≡ some e
      → knows m e ≡ true
      → Misses (knows m) unused (take k t)
      → last_seen t m ≡ some e.last_seq
  unfolding last_seen
  last_seen-hit [] k e g f q = cc
  last_seen-hit (x ∷ t) zero e g f q = ground arith
  last_seen-hit (x ∷ t) (suc k) e g f q = rw q.0 (last_seen-hit t k e g f q.1)

  last_seen-miss : (t : List RelayOriginEntry) → Misses (knows m) unused t → last_seen t m ≡ none
  unfolding last_seen
  last_seen-miss [] q = refl
  last_seen-miss (x ∷ t) q = rw q.0 (last_seen-miss t q.1)

  last_seen-set :
      (t : List RelayOriginEntry) (k seq : ℕ)
      → k < length t
      → Misses (knows m) unused (take k t)
      → last_seen (set t k (marked m seq)) m ≡ some seq
  unfolding last_seen
  last_seen-set [] k seq l q = elim l [ ]
  last_seen-set (x ∷ t) zero seq l q = rw (mac_equal_refl m)
  last_seen-set (x ∷ t) (suc k) seq l q = rw q.0 (last_seen-set t k seq (omega arith) q.1)

  Misses-take :
      (t : List RelayOriginEntry) (k : ℕ)
      → Misses (knows m) unused t
      → Misses (knows m) unused (take k t)
  Misses-take t zero q = tt
  Misses-take [] (suc k) q = tt
  Misses-take (x ∷ t) (suc k) q = (q.0, Misses-take t k q.1)

get_elem?-lt {ℓ} : {A : Type ℓ} (t : List A) (k : ℕ) (a : A) → get_elem? t k ≡ some a → k < length t
get_elem?-lt [] k a g = cc
get_elem?-lt (x ∷ t) zero a g = omega arith
get_elem?-lt (x ∷ t) (suc k) a g = omega (arith, get_elem?-lt t k a g)

abbrev pub is_some : Option ℕ → ℕ → Bool
is_some none seq = false
is_some (some s) seq = s == seq

-- The test for a duplicate asks the map.
pub already_seen-last_seen :
    (t : List RelayOriginEntry) (m : Mac) (seq : ℕ)
    → already_seen t seq (origin_slot t m) ≡ is_some (last_seen t m) seq
unfolding already_seen
already_seen-last_seen t m seq = elim (find_slot-cases (knows m) unused t) [
  | inl (k, e, s, g, f, q) ↦ rw (s, already_seen, g, last_seen-hit m t k e g f q)
  | inr (inl (k, e, s, g, f, q)) ↦ rw (s, last_seen-miss m t q)
  | inr (inr (s, q)) ↦ rw (s, last_seen-miss m t q)
]

-- Marking stores the number under the master.
last_seen-mark_seen :
    (t : List RelayOriginEntry) (m : Mac) (seq : ℕ)
    → 0 < length t
    → last_seen (mark_seen t m seq (origin_slot t m)) m ≡ some seq
unfolding mark_seen
last_seen-mark_seen t m seq l = elim (find_slot-cases (knows m) unused t) [
  | inl (k, e, s, g, f, q) ↦ rw s (last_seen-set m t k seq (get_elem?-lt t k e g) q)
  | inr (inl (k, e, s, g, f, q)) ↦
      rw s (last_seen-set m t k seq (get_elem?-lt t k e g) (Misses-take m t k q))
  | inr (inr (s, q)) ↦ rw s (last_seen-set m t 0 seq l tt)
]

last_seen-set_ne :
    (m m' : Mac) (t : List RelayOriginEntry) (k seq : ℕ) (e : RelayOriginEntry)
    → get_elem? t k ≡ some e
    → knows m' e ≡ false
    → mac_equal m m' ≡ false
    → last_seen (set t k (marked m seq)) m' ≡ last_seen t m'
unfolding last_seen
last_seen-set_ne m m' [] k seq e g f n = cc
last_seen-set_ne m m' (x ∷ t) zero seq e g f n = ground arith
last_seen-set_ne m m' (x ∷ t) (suc k) seq e g f n =
    ground (arith, last_seen-set_ne m m' t k seq e g f n)

-- and leaves the others, unless it had to evict one.
last_seen-mark_seen_ne :
    (t : List RelayOriginEntry) (m m' : Mac) (seq : ℕ)
    → origin_slot t m ≢ full
    → mac_equal m m' ≡ false
    → last_seen (mark_seen t m seq (origin_slot t m)) m' ≡ last_seen t m'
unfolding mark_seen
last_seen-mark_seen_ne t m m' seq room n = elim (find_slot-cases (knows m) unused t) [
  | inl (k, e, s, g, f, q) ↦ rw s (last_seen-set_ne m m' t k seq e g (other e f) n)
  | inr (inl (k, e, s, g, f, q)) ↦ rw s (last_seen-set_ne m m' t k seq e g (ground arith) n)
  | inr (inr (s, q)) ↦ absurd (room s)
]
  where
    other : (e : RelayOriginEntry) → knows m e ≡ true → knows m' e ≡ false
    other e f = ground (arith, mac_equal-eq e.mac m)

-- Masters whose numbers the table is to keep when `origin` is heard: `origin` itself, and the others
-- as long as the table knows `origin` or has a free entry.
abbrev pub IsKept : List RelayOriginEntry → Mac → Mac → Type 0
IsKept t origin m = (mac_equal origin m ≡ true) ⊎ (origin_slot t origin ≢ full)

-- With a table of one entry at least, hearing a packet of another master stores its number under
-- that master, also in a full table, and, as long as the table knows it or has a free entry, changes
-- what is stored for no other.
pub last_seen-handle_flood_candidate :
    (my_mac origin m : Mac) (now delay seq hop : ℕ) (inner : List ℕ) (is_relay : Bool) (r : Relay)
    → mac_equal origin my_mac ≡ false
    → 0 < length r.origins
    → IsKept r.origins origin m
    → last_seen (handle_flood_candidate my_mac now delay origin seq hop inner is_relay r).origins m
      ≡ (if mac_equal origin m then some seq else last_seen r.origins m)
unfolding handle_flood_candidate
last_seen-handle_flood_candidate my_mac origin m now delay seq hop inner is_relay r own l kept =
    rw own (elim (Bool-cases (mac_equal origin m)) [
      | inl e ↦ rw (e, ← mac_equal-eq origin m e) (last_seen-mark_seen r.origins origin seq l)
      | inr n ↦ elim kept [
        | inl e ↦ absurd (ground arith)
        | inr room ↦ rw n (last_seen-mark_seen_ne r.origins origin m seq room n)
      ]
    ])

-- What overhearing leaves: no forward of this packet is pending.
pub suppress_pending-awaits :
    (m : Mac) (seq : ℕ) (ps : List PendingRelay)
    → All (λ p. awaits m seq p ≡ false) (suppress_pending m seq ps)
unfolding suppress_pending
suppress_pending-awaits m seq [] = tt
suppress_pending-awaits m seq (p ∷ ps) = (ground arith, suppress_pending-awaits m seq ps)

-- A packet whose number is the last one handled for its master is never scheduled, whatever hop
-- and payload it comes with. Heard directly it leaves the pending forwards as they are; heard from
-- a relay it also cancels the node's own forward of it.
pub handle_flood_candidate_duplicate :
    (my_mac origin : Mac) (now delay seq hop : ℕ) (inner : List ℕ) (r : Relay)
    → mac_equal origin my_mac ≡ false
    → last_seen r.origins origin ≡ some seq
    → ((handle_flood_candidate my_mac now delay origin seq hop inner false r).pending ≡ r.pending)
      × All
          (λ p. awaits origin seq p ≡ false)
          (handle_flood_candidate my_mac now delay origin seq hop inner true r).pending
unfolding handle_flood_candidate
handle_flood_candidate_duplicate my_mac origin now delay seq hop inner r own e =
    let seen : already_seen r.origins seq (origin_slot r.origins origin) ≡ true =
      already_seen-last_seen r.origins origin seq ∙ ap (λ o. is_some o seq) e ∙ ground arith in
    rw (own, seen) (refl, suppress_pending-awaits origin seq r.pending)
