-- ===== src/Relay/Scheduling.antt =====
-- When a packet that is heard is scheduled.
use nowde.Prelude.{
  ℕ, zero, suc, ◌+◌, ◌≤◌, ◌≡◌, refl, ◌∙◌, ◌≢◌, Bool, true, false, some, List, [], ◌∷◌, get_elem?,
  take, ltb, if◌then◌else◌, if_both, if_cases, u8, u32, arith,
}
use nowde.Config.{max_hops}
use nowde.Wire.{Mac, mac_equal, media_sync_len}
use nowde.Relay.{
  PendingRelay, Relay, already_seen, origin_slot, suppress_pending, schedule,
  handle_flood_candidate,
}
use nowde.Relay.Dedup.{last_seen, already_seen-last_seen}

map-inactive :
    (m : Mac) (seq : ℕ) (ps : List PendingRelay) (k : ℕ) (p : PendingRelay)
    → get_elem? ps k ≡ some p
    → p.active ≡ false
    → get_elem? (suppress_pending m seq ps) k ≡ some p
unfolding suppress_pending
map-inactive m seq [] k p g e = cc
map-inactive m seq (x ∷ ps) zero p g e = ground arith
map-inactive m seq (x ∷ ps) (suc k) p g e = map-inactive m seq ps k p g e

schedule-holds :
    (q : PendingRelay) (ps : List PendingRelay) (k : ℕ) (p : PendingRelay)
    → get_elem? ps k ≡ some p
    → p.active ≡ false
    → (j : ℕ) × (get_elem? (schedule q ps) j ≡ some q)
unfolding schedule
schedule-holds q [] k p g e = absurd (cc)
schedule-holds q (x ∷ ps) zero p g e = (0, ground arith)
schedule-holds q (x ∷ ps) (suc k) p g e =
    let (j, at) = schedule-holds q ps k p g e in
    if_cases (λ t. (j : ℕ) × (get_elem? t j ≡ some q)) x.active (x ∷ schedule q ps) (q ∷ ps)
      (λ _. (suc j, at)) (λ _. (0, refl))

-- With a slot free, a packet of another master that is not the last one handled for it is
-- scheduled, 5 to 30 ms ahead, under its own origin and number, with its bytes as they came, if
-- the hop byte, incremented as a byte, is at most MAX_HOPS. A received hop byte of 255 is one of
-- these: it becomes 0.
pub handle_flood_candidate_forwards :
    (my_mac origin : Mac) (now delay seq hop : ℕ) (inner : List ℕ) (is_relay : Bool) (r : Relay)
    (k : ℕ) (p : PendingRelay)
    → mac_equal origin my_mac ≡ false
    → last_seen r.origins origin ≢ some seq
    → u8 (hop + 1) ≤ max_hops
    → get_elem? r.pending k ≡ some p
    → p.active ≡ false
    → (j : ℕ) × (get_elem?
          (handle_flood_candidate my_mac now delay origin seq hop inner is_relay r).pending
          j
        ≡ some (record {
          active = true;
          send_time = u32 (now + delay);
          origin = origin;
          seq = seq;
          hop = u8 (hop + 1);
          payload = take media_sync_len inner;
        }))
unfolding handle_flood_candidate
handle_flood_candidate_forwards my_mac origin now delay seq hop inner is_relay r k p own new h g e =
    rw (own, seen, within) (schedule-holds _ pending k p free_slot e)
  where
    pending : List PendingRelay
    pending = if is_relay then suppress_pending origin seq r.pending else r.pending

    free_slot : get_elem? pending k ≡ some p
    free_slot =
        if_both (λ ps. get_elem? ps k ≡ some p) is_relay _ r.pending
          (map-inactive origin seq r.pending k p g e) g

    seen : already_seen r.origins seq (origin_slot r.origins origin) ≡ false
    seen = already_seen-last_seen r.origins origin seq ∙ ground arith

    within : ltb max_hops (u8 (hop + 1)) ≡ false
    within = ground arith
