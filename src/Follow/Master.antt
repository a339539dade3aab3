-- ===== src/Follow/Master.antt =====
-- The node's state follows the master's, whatever the mesh clock says.
use nowde.Prelude.{
  ℕ, ◌+◌, ◌≤◌, ◌<◌, ◌≡◌, refl, ◌⊎◌, inl, inr, Bool, true, false, not, ◌&&◌, ◌==◌, ltb,
  if◌then◌else◌, u32, ap, sym, ltb→lt, length, List, [], arith, if_cases,
}
use nowde.Wire.{Mac, MediaSyncPacket, media_sync_packet, media_sync_min_len}
use nowde.Midi.{Message}
use nowde.Sync.Origin.{MayFollow, Follows, origin_accepts_lem}
use nowde.Sync.{MediaSyncState, Follower, origin_accepts, layer_matches}
use nowde.Follow.{
  follow_packet, compensated_position, clock_trustworthy, time_delta, process_media_sync_packet,
  carries_volume, count_gap, is_late, send_index, send_volume, send_transition, update_sync,
}

-- The position that is followed is the master's, later by the age of the packet only if it plays
-- and the age is between 1 and 200 ms.
pub compensated_position_lem :
    (mesh_now : ℕ) (p : MediaSyncPacket)
    → (compensated_position mesh_now p ≡ p.position_ms)
      ⊎ ((age : ℕ) × (compensated_position mesh_now p ≡ u32 (p.position_ms + age))
          × (0 < age)
          × (age ≤ 200)
          × (p.state ≡ 1)
          × (age ≡ time_delta mesh_now p))
unfolding compensated_position
compensated_position_lem mesh_now p =
    let age = time_delta mesh_now p in
    if_cases
      (λ q.
        (q ≡ p.position_ms)
        ⊎ ((age : ℕ) × (q ≡ u32 (p.position_ms + age))
            × (0 < age)
            × (age ≤ 200)
            × (p.state ≡ 1)
            × (age ≡ time_delta mesh_now p)))
      (clock_trustworthy age && (p.state == 1 && is_late age)) _ _
      (λ e. inr (age, refl, ground arith, ground arith, ground arith, refl)) (λ e. inl refl)

-- What an accepted packet leaves of the state.
pub record Tracks (now mesh_now : ℕ) (p : MediaSyncPacket) (s : MediaSyncState) : Type 0 where
  pub index : s.current_index ≡ p.media_index
  pub state : s.current_state ≡ p.state
  pub position : s.current_position_ms ≡ compensated_position mesh_now p
  pub heard : s.last_sync_time ≡ now
  pub linked : s.link_lost ≡ false
  pub precise : s.coarse ≡ not (clock_trustworthy (time_delta mesh_now p))

module _ (now mesh_now : ℕ) (p : MediaSyncPacket) (s : MediaSyncState)
    (t : Tracks now mesh_now p s) where
  send_index-Tracks : Tracks now mesh_now p (send_index now p s).0
  unfolding send_index
  send_index-Tracks = ground arith

  send_volume-Tracks : (v : ℕ) → Tracks now mesh_now p (send_volume now v s).0
  unfolding send_volume
  send_volume-Tracks v = ground arith

  send_transition-Tracks :
      (position : ℕ) (to_playing to_stopped : Bool)
      → Tracks now mesh_now p (send_transition now position to_playing to_stopped s).0
  unfolding send_transition
  send_transition-Tracks position to_playing to_stopped = ground arith

  sent_volume-Tracks :
      (b : Bool) (v : ℕ) → Tracks now mesh_now p (if b then send_volume now v s else (s, [])).0
  sent_volume-Tracks true v = send_volume-Tracks v
  sent_volume-Tracks false v = t

update_sync-Tracks :
    (now mesh_now : ℕ) (p : MediaSyncPacket) (s : MediaSyncState)
    → s.coarse ≡ not (clock_trustworthy (time_delta mesh_now p))
    → Tracks now mesh_now p (update_sync now (compensated_position mesh_now p) p s)
unfolding update_sync
update_sync-Tracks now mesh_now p s e = ground arith

-- An accepted packet is followed in every state and on every branch: index, position and state
-- are the master's, the link is up, and `coarse` says exactly that the mesh clock was not trusted.
pub follow_packet-Tracks :
    (now mesh_now len : ℕ) (p : MediaSyncPacket) (s : MediaSyncState)
    → Tracks now mesh_now p (follow_packet now mesh_now len p s).0
unfolding follow_packet
follow_packet-Tracks now mesh_now len p s =
    let coarse = not (clock_trustworthy (time_delta mesh_now p)) in
    let t0 = update_sync-Tracks now mesh_now p (record s { coarse = coarse }) refl in
    let t1 = send_index-Tracks now mesh_now p _ t0 in
    let t3 = sent_volume-Tracks now mesh_now p _ t1 (carries_volume len p) p.volume in
    send_transition-Tracks now mesh_now p _ t3 _ _ _

not-true : (b : Bool) → not b ≡ true → b ≡ false
not-true true h = sym h
not-true false h = refl

not-false : (b : Bool) → not b ≡ false → b ≡ true
not-false true h = refl
not-false false h = sym h

-- Why a packet is ignored.
abbrev pub Ignored : ℕ → List ℕ → Mac → List ℕ → Follower → Type 0
Ignored now subscribed origin bytes f =
    (length bytes < media_sync_min_len)
    ⊎ (layer_matches subscribed (media_sync_packet bytes).layer ≡ false)
    ⊎ (MayFollow now origin f → ⊥)

-- A frame is either ignored, because it is shorter than 27 bytes, is for another layer, or is of a
-- master that the origin lock refuses, and then nothing changes and nothing is sent; or it is
-- followed, whatever the mesh clock says, and the lock is on its master.
pub process_media_sync_packet_lem :
    (now mesh_now : ℕ) (subscribed : List ℕ) (origin : Mac) (bytes : List ℕ) (f : Follower)
    → let after = process_media_sync_packet now mesh_now subscribed origin bytes f in
      (Ignored now subscribed origin bytes f × (after ≡ (f, [])))
      ⊎ ((media_sync_min_len ≤ length bytes)
          × (layer_matches subscribed (media_sync_packet bytes).layer ≡ true)
          × MayFollow now origin f
          × Follows now origin f after.0
          × Tracks now mesh_now (media_sync_packet bytes) after.0.sync)
unfolding process_media_sync_packet
process_media_sync_packet_lem now mesh_now subscribed origin bytes f =
    let p = media_sync_packet bytes in
    let g = (origin_accepts now origin f).0 in
    let accepted = (origin_accepts now origin f).1 in
    let s = count_gap (length bytes) p.seq g.sync in
    let P : Follower × List Message → Type 0 = λ after.
      (Ignored now subscribed origin bytes f × (after ≡ (f, [])))
      ⊎ ((media_sync_min_len ≤ length bytes)
          × (layer_matches subscribed p.layer ≡ true)
          × MayFollow now origin f
          × Follows now origin f after.0
          × Tracks now mesh_now p after.0.sync) in
    if_cases P (ltb (length bytes) media_sync_min_len) _ _ (λ e. inl (inl (ltb→lt _ _ e), refl))
      λ long.
        if_cases P (not (layer_matches subscribed p.layer)) _ _
          (λ e. inl (inr (inl (not-true _ e)), refl))
          λ fits. elim (origin_accepts_lem now origin f) [
            | inl (e, may, lock) ↦ rw e (
                inr (
                  ground arith,
                  not-false _ fits,
                  may,
                  lock,
                  follow_packet-Tracks now mesh_now (length bytes) p s,
                ))
            | inr (e, may, same) ↦ rw e (inl (inr (inr may), ap (λ h. (h, [])) same))
          ]
