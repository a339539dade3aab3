-- ===== src/Follow.antt =====
-- receiver_mode.cpp, `processMediaSyncPacket`: how a node follows a MEDIA_SYNC packet, and what it
-- tells its host. The function is cut at its comments; the parts run in the order of the source.
pub mod Master
pub mod Gaps
pub mod Host
pub mod Policy
use nowde.Prelude.{
  ℕ, ◌+◌, ◌-◌, ◌%◌, Bool, true, false, ◌&&◌, ◌||◌, not, List, [], ◌∷◌, ◌++◌, length, ltb, leb, ◌==◌,
  if◌then◌else◌, u16, u32, sub32,
}
use nowde.Config.{
  mediasync_max_gap, clock_desync_threshold_ms, jump_fullframe_threshold_ms,
  cc100_repeat_interval_ms, cc7_repeat_interval_ms,
}
use nowde.Wire.{
  Mac, MediaSyncPacket, media_sync_packet, media_sync_min_len, media_sync_volume_len,
  media_sync_len,
}
use nowde.Midi.{Message, cc, full_frame, start, stop}
use nowde.Sync.{MediaSyncState, OriginLock, Follower, origin_accepts, layer_matches}

-- `static_cast<uint16_t>(seq - lastSeq - 1)`.
abbrev pub seq_gap : ℕ → ℕ → ℕ
seq_gap seq last_seq = (seq + 131071 - last_seq) % 65536

-- The delivery signal: frames missed since the last one, 65535 at most. Only a frame of the full
-- size carries a number.
unfoldable pub count_gap : ℕ → ℕ → MediaSyncState → MediaSyncState
count_gap len seq s =
    let gap = seq_gap seq s.last_seq in
    let total = s.sync_gaps + gap in
    let counted =
      if s.have_seq && (ltb 0 gap && leb gap mediasync_max_gap)
      then (if ltb 0xFFFF total then 0xFFFF else total)
      else s.sync_gaps in
    if leb media_sync_len len
    then record s { sync_gaps = counted; last_seq = seq; have_seq = true }
    else s

-- `timeDelta`, as the bit pattern of its 32 bits.
abbrev pub time_delta : ℕ → MediaSyncPacket → ℕ
time_delta mesh_now p = sub32 mesh_now p.mesh_timestamp

-- `abs(timeDelta) <= 200`. (At -2 ^ 31 the C `abs` is undefined; the answer here is no.)
abbrev pub clock_trustworthy : ℕ → Bool
clock_trustworthy delta =
    leb delta clock_desync_threshold_ms || leb (4294967296 - clock_desync_threshold_ms) delta

-- `timeDelta > 0`.
abbrev pub is_late : ℕ → Bool
is_late delta = ltb 0 delta && ltb delta 2147483648

-- `compensatedPositionMs`.
unfoldable pub compensated_position : ℕ → MediaSyncPacket → ℕ
compensated_position mesh_now p =
    let delta = time_delta mesh_now p in
    if clock_trustworthy delta && (p.state == 1 && is_late delta)
    then u32 (p.position_ms + delta)
    else p.position_ms

-- `jumped`: the position is more than a second off the one that the local clock gives.
unfoldable pub has_jumped : ℕ → ℕ → MediaSyncPacket → MediaSyncState → Bool
has_jumped now position p s =
    let expected = u32 (s.current_position_ms + sub32 now s.local_clock_start_time) in
    let diff = sub32 position expected in
    (s.current_state == 1 && p.state == 1)
    && ((ltb jump_fullframe_threshold_ms diff && ltb diff 2147483648)
        || (leb 2147483648 diff && ltb diff (4294967296 - jump_fullframe_threshold_ms)))

-- `stateChangedToStopped`, `stateChangedToPlaying` and `firstContactStopped`, on the state before.
abbrev pub changed_to_stopped : MediaSyncPacket → MediaSyncState → Bool
changed_to_stopped p s = s.current_state == 1 && p.state == 0

abbrev pub changed_to_playing : MediaSyncPacket → MediaSyncState → Bool
changed_to_playing p s = s.current_state == 0 && p.state == 1

abbrev pub first_contact_stopped : MediaSyncPacket → MediaSyncState → Bool
first_contact_stopped p s = s.last_sent_index == 255 && (p.state == 0 && p.media_index == 0)

-- "Update sync state".
unfoldable pub update_sync : ℕ → ℕ → MediaSyncPacket → MediaSyncState → MediaSyncState
update_sync now position p s = record s {
  current_index = p.media_index;
  current_position_ms = position;
  current_state = p.state;
  last_sync_time = now;
  link_lost = false;
  local_clock_start_time = if p.state == 1 then now else s.local_clock_start_time;
}

-- "Handle media index changes".
unfoldable pub send_index : ℕ → MediaSyncPacket → MediaSyncState → MediaSyncState × List Message
send_index now p s =
    if not (s.last_sent_index == p.media_index) && not (p.media_index == 0)
    then (
      record s { last_sent_index = p.media_index; last_cc100_send_time = now },
      cc 100 p.media_index ∷ [],
    )
    else (s, [])

-- The master-driven volume, once it is known that the packet carries one.
unfoldable pub send_volume : ℕ → ℕ → MediaSyncState → MediaSyncState × List Message
send_volume now volume s =
    let v = if ltb 100 volume then 100 else volume in
    let t = record s { current_volume = v } in
    if not (v == s.last_sent_volume)
    then (record t { last_sent_volume = v; last_cc7_send_time = now }, cc 7 v ∷ [])
    else if leb cc7_repeat_interval_ms (sub32 now s.last_cc7_send_time)
    then (record t { last_cc7_send_time = now }, cc 7 v ∷ [])
    else (t, [])

-- `hasVolume && (flags & MEDIASYNC_FLAG_VOLUME)`.
abbrev pub carries_volume : ℕ → MediaSyncPacket → Bool
carries_volume len p = leb media_sync_volume_len len && p.flags % 2 == 1

-- "Handle state transitions", with the tests made on the state before, and the periodic resend.
unfoldable pub send_transition :
    ℕ → ℕ → Bool → Bool → MediaSyncState → MediaSyncState × List Message
send_transition now position to_playing to_stopped s =
    if to_playing
    then (s, full_frame position ∷ start ∷ [])
    else if to_stopped
    then (record s { last_sent_index = 0; last_cc100_send_time = now }, cc 100 0 ∷ stop ∷ [])
    else if s.current_state == 1
        && (ltb 0 s.current_index
            && leb cc100_repeat_interval_ms (sub32 now s.last_cc100_send_time))
    then (record s { last_cc100_send_time = now }, cc 100 s.current_index ∷ [])
    else (s, [])

-- From the accepted packet on: the clock, the state, and the messages for the host.
unfoldable pub follow_packet :
    ℕ → ℕ → ℕ → MediaSyncPacket → MediaSyncState → MediaSyncState × List Message
follow_packet now mesh_now len p s =
    let position = compensated_position mesh_now p in
    let jumped = has_jumped now position p s in
    let to_playing = changed_to_playing p s in
    let to_stopped = changed_to_stopped p s || first_contact_stopped p s in
    let coarse = not (clock_trustworthy (time_delta mesh_now p)) in
    let updated = update_sync now position p (record s { coarse = coarse }) in
    let (s1, m1) = send_index now p updated in
    let m2 = if jumped then full_frame position ∷ [] else [] in
    let (s3, m3) = if carries_volume len p then send_volume now p.volume s1 else (s1, []) in
    let (s4, m4) = send_transition now position to_playing to_stopped s3 in
    (s4, m1 ++ (m2 ++ (m3 ++ m4)))

-- `processMediaSyncPacket`. `mesh_now` is what `meshMillisStable()` gives.
unfoldable pub process_media_sync_packet :
    ℕ → ℕ → List ℕ → Mac → List ℕ → Follower → Follower × List Message
process_media_sync_packet now mesh_now subscribed origin bytes f =
    let len = length bytes in
    let p = media_sync_packet bytes in
    let (g, accepted) = origin_accepts now origin f in
    let (s, messages) = follow_packet now mesh_now len p (count_gap len p.seq g.sync) in
    if ltb len media_sync_min_len
    then (f, [])
    else if not (layer_matches subscribed p.layer)
    then (f, [])
    else if not accepted
    then (g, [])
    else (record g { sync = s }, messages)
