-- ===== src/Relay/Pending.antt =====
-- What holds of every pending forward, through a frame that is heard and through a poll.
use nowde.Prelude.{
  ℕ, ◌+◌, ◌≤◌, Bool, true, false, List, [], ◌∷◌, All, take, ltb, if◌then◌else◌, u8, u32, arith,
  if_both, if_cases,
}
use nowde.Config.{max_hops}
use nowde.Wire.{Mac, mac_equal, media_sync_len}
use nowde.Relay.{
  PendingRelay, Relay, is_due, awaits, suppress_pending, forward, handle_flood_candidate,
  already_seen, origin_slot,
}
use nowde.Relay.Hops.{schedule-All}
use nowde.Relay.Firing.{spent}

-- The forward that a frame can lead to.
abbrev pub forward_of : Mac → ℕ → ℕ → List ℕ → ℕ → PendingRelay
forward_of origin seq hop inner send_time = record {
  active = true;
  send_time = send_time;
  origin = origin;
  seq = seq;
  hop = u8 (hop + 1);
  payload = take media_sync_len inner;
}

module _ (P : PendingRelay → Type 0)
    (idle : (p : PendingRelay) → P (record p { active = false })) where
  suppress_pending-All :
      (m : Mac) (seq : ℕ) (ps : List PendingRelay) → All P ps → All P (suppress_pending m seq ps)
  unfolding suppress_pending
  suppress_pending-All m seq [] v = tt
  suppress_pending-All m seq (p ∷ ps) v =
      (if_both P (awaits m seq p) _ p (idle p) v.0, suppress_pending-All m seq ps v.1)

  pub spent-All : (now : ℕ) (ps : List PendingRelay) → All P ps → All P (spent now ps)
  spent-All now [] v = tt
  spent-All now (p ∷ ps) v = (if_both P (is_due now p) _ p (idle p) v.0, spent-All now ps v.1)

  pub handle_flood_candidate-All :
      (my_mac origin : Mac) (now delay seq hop : ℕ) (inner : List ℕ) (is_relay : Bool) (r : Relay)
      → (u8 (hop + 1) ≤ max_hops → P (forward_of origin seq hop inner (u32 (now + delay))))
      → All P r.pending
      → All P (handle_flood_candidate my_mac now delay origin seq hop inner is_relay r).pending
  unfolding handle_flood_candidate forward
  handle_flood_candidate-All my_mac origin now delay seq hop inner is_relay r new v =
      if_both (λ q. All P q.pending) (mac_equal origin my_mac) r _ v
        (if_both (All P) (already_seen r.origins seq (origin_slot r.origins origin)) pending _ kept
          (if_cases (All P) (ltb max_hops (u8 (hop + 1))) pending _ (λ _. kept)
            λ e. schedule-All P _ pending (new (ground arith)) kept))
    where
      pending : List PendingRelay
      pending = if is_relay then suppress_pending origin seq r.pending else r.pending

      kept : All P pending
      kept = if_both (All P) is_relay _ r.pending (suppress_pending-All origin seq r.pending v) v
