-- ===== src/Network/Delivery.antt =====
-- A packet gets on, hop by hop.
use nowde.Prelude.{
  ℕ, zero, suc, ◌+◌, ◌/◌, ◌^◌, ◌≤◌, ◌<◌, ◌≡◌, ◌≢◌, refl, sym, ap, ◌∙◌, Bool, true, false, some,
  List, [], ◌∷◌, ◌++◌, get_elem?, get_elem?-set_self, length, u8, u32, arith, if_cases,
}
use mathlib.Core.Bool.{false≢true}
use mathlib.Core.Option.{some-injective}
use nowde.Config.{max_hops}
use nowde.Wire.{Mac, mac_equal, MediaSyncPacket, media_sync_bytes}
use nowde.Wire.RoundTrip.{MediaSyncPacketIsValid}
use nowde.Relay.{PendingRelay, relay_frame, handle_flood_candidate, process_pending_relays, is_due}
use nowde.Relay.Dedup.{last_seen}
use nowde.Relay.Scheduling.{handle_flood_candidate_forwards}
use nowde.Relay.Firing.{due_frames, process_pending_relays_lem, is_due_iff, millis_at}
use nowde.Delivery.Air.{copy_of}
use nowde.Node.{Node, World}
use nowde.Receive.{on_data_recv}
use nowde.Network.{Frame, Station, Net, from, hear, poll, hears, polls, Reach, here, next}
use nowde.Network.Genuine.{take-all, length-valid, direct-relay, relayed-relay}

-- The frame is the broadcast of `origin` itself, or a forward that is `hop` hops old.
pub data Carries (origin : Mac) (p : MediaSyncPacket) (f : Frame) (hop : ℕ) : Type 0 where
  itself : hop ≡ 0 → f.src ≡ origin → f.bytes ≡ media_sync_bytes p → Carries origin p f hop
  copy : (time : ℕ) → f.bytes ≡ relay_frame (copy_of origin hop time p) → Carries origin p f hop

-- A station that has not handled the packet, is not its master, and has a slot free.
pub record CanForward (w : World) (origin : Mac) (p : MediaSyncPacket) (n : Node) : Type 0 where
  pub foreign : mac_equal origin w.my_mac ≡ false
  pub unseen : last_seen n.relay.origins origin ≢ some p.seq
  pub slot : ℕ
  pub idle : PendingRelay
  pub at : get_elem? n.relay.pending slot ≡ some idle
  pub inactive : idle.active ≡ false

due_frames-get_elem? :
    (now : ℕ) (ps : List PendingRelay) (j : ℕ) (q : PendingRelay)
    → get_elem? ps j ≡ some q
    → is_due now q ≡ true
    → (k : ℕ) × (get_elem? (due_frames now ps) k ≡ some (relay_frame q))
due_frames-get_elem? now [] j q g d = absurd (cc)
due_frames-get_elem? now (x ∷ ps) zero q g d =
    let same = some-injective x q g in
    if_cases (λ fs. (k : ℕ) × (get_elem? fs k ≡ some (relay_frame q))) (is_due now x)
      (relay_frame x ∷ due_frames now ps) (due_frames now ps)
      (λ e. (0, ap (λ y. some (relay_frame y)) same))
      λ e. absurd (false≢true (sym e ∙ ap (is_due now) same ∙ d))
due_frames-get_elem? now (x ∷ ps) (suc j) q g d =
    let (k, at) = due_frames-get_elem? now ps j q g d in
    if_cases (λ fs. (k : ℕ) × (get_elem? fs k ≡ some (relay_frame q))) (is_due now x)
      (relay_frame x ∷ due_frames now ps) (due_frames now ps) (λ e. (suc k, at)) λ e. (k, at)

from-get_elem? :
    (mac : Mac) (fs : List (List ℕ)) (air : List Frame) (k : ℕ) (bytes : List ℕ)
    → get_elem? fs k ≡ some bytes
    → get_elem? (from mac fs ++ air) k ≡ some (record { src = mac; bytes = bytes })
from-get_elem? mac [] air k bytes g = absurd (cc)
from-get_elem? mac (f ∷ fs) air zero bytes g =
    ap (λ b. some (record { src = mac; bytes = b })) (some-injective f bytes g)
from-get_elem? mac (f ∷ fs) air (suc k) bytes g = from-get_elem? mac fs air k bytes g

flooded :
    (w : World) (origin : Mac) (p : MediaSyncPacket) (hop : ℕ) (is_relay : Bool) (n : Node)
    → MediaSyncPacketIsValid p
    → hop < max_hops
    → CanForward w origin p n
    → (j : ℕ) × (get_elem?
          (handle_flood_candidate w.my_mac w.now w.draw origin p.seq hop
            (media_sync_bytes p)
            is_relay
            n.relay).pending
          j
        ≡ some (copy_of origin (hop + 1) (u32 (w.now + w.draw)) p))
flooded w origin p hop is_relay n v h c =
    let (j, at) =
      handle_flood_candidate_forwards w.my_mac origin w.now w.draw p.seq hop (media_sync_bytes p)
        is_relay n.relay c.slot c.idle c.foreign c.unseen (omega (arith, h)) c.at c.inactive in
    (
      j,
      at
          ∙ ap
              (λ b.
                some
                  (record (copy_of origin (u8 (hop + 1)) (u32 (w.now + w.draw)) p) { payload = b }))
              (take-all 31 (media_sync_bytes p) (length-valid p v))
          ∙ ap (λ k. some (copy_of origin k (u32 (w.now + w.draw)) p)) (omega (arith, h)),
    )

-- What the station holds once it heard the frame.
pub held :
    (w : World) (origin : Mac) (p : MediaSyncPacket) (f : Frame) (hop : ℕ) (n : Node)
    → Carries origin p f hop
    → MediaSyncPacketIsValid p
    → hop < max_hops
    → CanForward w origin p n
    → (j : ℕ) × (get_elem? (on_data_recv w false f.src f.bytes n).0.relay.pending j
        ≡ some (copy_of origin (hop + 1) (u32 (w.now + w.draw)) p))
held w origin p f hop n (itself z s e) v h c =
    let (j, at) = flooded w origin p 0 false n v (omega arith) c in
    (
      j,
      ap (λ r. get_elem? r.pending j)
            (ap (λ b. (on_data_recv w false f.src b n).0.relay) e
              ∙ ap (λ m. (on_data_recv w false m (media_sync_bytes p) n).0.relay) s
              ∙ direct-relay w origin p n v)
          ∙ at
          ∙ ap (λ k. some (copy_of origin (k + 1) (u32 (w.now + w.draw)) p)) (sym z),
    )
held w origin p f hop n (copy time e) v h c =
    let (j, at) = flooded w origin p hop true n v h c in
    (
      j,
      ap (λ r. get_elem? r.pending j)
            (ap (λ b. (on_data_recv w false f.src b n).0.relay) e
              ∙ relayed-relay w f.src origin p hop time n v)
          ∙ at,
    )

copy-is_due :
    (w : World) (t poll_time : ℕ) (origin : Mac) (hop : ℕ) (p : MediaSyncPacket)
    → w.now ≡ millis_at t
    → t + w.draw ≤ poll_time
    → t / 2 ^ 32 ≡ poll_time / 2 ^ 32
    → is_due (millis_at poll_time) (copy_of origin hop (u32 (w.now + w.draw)) p) ≡ true
copy-is_due w t poll_time origin hop p now late wrap =
    (is_due_iff t w.draw poll_time (copy_of origin hop (u32 (w.now + w.draw)) p) refl
        (omega (arith, now)) wrap (omega (arith, late, wrap))).0
      late

get_elem?-lt {ℓ} :
    {A : Type ℓ} (xs : List A) (i : ℕ) (a : A) → get_elem? xs i ≡ some a → i < length xs
get_elem?-lt [] i a g = absurd (cc)
get_elem?-lt (x ∷ xs) zero a g = omega arith
get_elem?-lt (x ∷ xs) (suc i) a g = omega (arith, get_elem?-lt xs i a g)

-- Station `i` hears the packet and polls its forwards.
abbrev pub heard_and_polled : World → ℕ → ℕ → Station → Frame → Net → Net
heard_and_polled w poll_time i s f net =
    poll (millis_at poll_time) i (record s { node = (on_data_recv w false f.src f.bytes s.node).0 })
      (hear w i s f net)

-- A station that hears a packet which is less than MAX_HOPS hops old, that it has not handled yet and
-- is not the master of, with a slot free, and polls at any time from the delay that it drew on,
-- with no wrap of millis() between, puts a forward of the packet on the air, one hop older.
pub hears_and_polls :
    (w : World) (t poll_time i k hop : ℕ) (s : Station) (f : Frame) (net : Net) (origin : Mac)
    (p : MediaSyncPacket)
    → get_elem? net.stations i ≡ some s
    → get_elem? net.air k ≡ some f
    → Carries origin p f hop
    → MediaSyncPacketIsValid p
    → hop < max_hops
    → CanForward w origin p s.node
    → w.now ≡ millis_at t
    → t + w.draw ≤ poll_time
    → t / 2 ^ 32 ≡ poll_time / 2 ^ 32
    → let after = heard_and_polled w poll_time i s f net in
      Reach net after
      × ((j : ℕ) × (g : Frame) × (get_elem? after.air j ≡ some g) × Carries origin p g (hop + 1))
unfolding hear poll
hears_and_polls w t poll_time i k hop s f net origin p at on_air c v h can now late wrap =
    let n = (on_data_recv w false f.src f.bytes s.node).0 in
    let r = process_pending_relays (millis_at poll_time) n.relay in
    let (j, holds) = held w origin p f hop s.node c v h can in
    let (j', due) =
      due_frames-get_elem? (millis_at poll_time) n.relay.pending j _ holds
        (copy-is_due w t poll_time origin (hop + 1) p now late wrap) in
    let sent =
      ap (λ fs. get_elem? fs j') (process_pending_relays_lem (millis_at poll_time) n.relay).0
      ∙ due in
    (
      next (next here (hears w i s k f at on_air)) (
          polls (millis_at poll_time) i (record s { node = n })
            (get_elem?-set_self net.stations i _ (get_elem?-lt net.stations i s at))),
      (
        j',
        record {
          src = s.mac;
          bytes = relay_frame (copy_of origin (hop + 1) (u32 (w.now + w.draw)) p);
        },
        from-get_elem? s.mac r.1 net.air j' _ sent,
        copy (u32 (w.now + w.draw)) refl,
      ),
    )
