-- ===== src/Follow/Host.antt =====
-- What the host of a following node is told.
use nowde.Prelude.{
  ℕ, ◌%◌, ◌≤◌, ◌<◌, ◌≡◌, refl, ap, ◌∙◌, sym, ◌≢◌, ◌⊎◌, inl, inr, Bool, true, false, not, ◌&&◌, ◌||◌,
  ◌==◌, leb, ltb, if◌then◌else◌, sub32, List, [], ◌∷◌, ◌++◌, if_both, if_cases, All, All-append,
  arith,
}
use mathlib.Core.List.{append_assoc}
use nowde.Config.{cc100_repeat_interval_ms, cc7_repeat_interval_ms}
use nowde.Wire.{MediaSyncPacket, media_sync_volume_len}
use nowde.Midi.{Message, cc, time_code, full_frame, start, stop}
use nowde.Sync.{MediaSyncState}
use nowde.Follow.{
  follow_packet, compensated_position, has_jumped, changed_to_playing, changed_to_stopped,
  first_contact_stopped, carries_volume, send_index, send_volume, send_transition, update_sync,
  time_delta, clock_trustworthy,
}

-- What may be sent while following: a media index, a volume of at most 100, a full frame, Start
-- or Stop. The quarter frames are the clock's.
abbrev pub IsFollowing : Message → Type 0
IsFollowing (cc number value) = (number ≡ 100) ⊎ ((number ≡ 7) × (value ≤ 100))
IsFollowing (time_code position) = ⊥
IsFollowing _ = Unit

-- A control change other than the volume's.
abbrev pub IsNoVolume : Message → Type 0
IsNoVolume (cc number value) = number ≢ 7
IsNoVolume _ = Unit

abbrev Sends : (Message → Type 0) → MediaSyncState × List Message → Type 0
Sends P r = All P r.1

-- What holds of a CC#100, a full frame, Start and Stop holds of all but the volume.
module _ (P : Message → Type 0) (index : (v : ℕ) → P (cc 100 v))
    (frame : (v : ℕ) → P (full_frame v)) (start_ok : P start) (stop_ok : P stop) where
  send_index-Sends :
      (now : ℕ) (p : MediaSyncPacket) (s : MediaSyncState) → Sends P (send_index now p s)
  unfolding send_index
  send_index-Sends now p s =
      if_cases (Sends P) (not (s.last_sent_index == p.media_index) && not (p.media_index == 0)) _ _
        (λ _. (index p.media_index, tt)) (λ _. tt)

  send_transition-Sends :
      (now position : ℕ) (a b : Bool) (s : MediaSyncState)
      → Sends P (send_transition now position a b s)
  unfolding send_transition
  send_transition-Sends now position a b s =
      let again =
        s.current_state == 1
        && (ltb 0 s.current_index
            && leb cc100_repeat_interval_ms (sub32 now s.last_cc100_send_time)) in
      if_cases (Sends P) a _ _ (λ _. (frame position, (start_ok, tt)))
        λ _.
          if_cases (Sends P) b _ _ (λ _. (index 0, (stop_ok, tt)))
            λ _. if_cases (Sends P) again _ _ (λ _. (index s.current_index, tt)) (λ _. tt)

  -- All messages, given those for the volume.
  follow_packet-All :
      (now mesh_now len : ℕ) (p : MediaSyncPacket) (s : MediaSyncState)
      → ((t : MediaSyncState)
          → Sends P (if carries_volume len p then send_volume now p.volume t else (t, [])))
      → All P (follow_packet now mesh_now len p s).1
  unfolding follow_packet
  follow_packet-All now mesh_now len p s volume =
      let position = compensated_position mesh_now p in
      let coarse = not (clock_trustworthy (time_delta mesh_now p)) in
      let updated = update_sync now position p (record s { coarse = coarse }) in
      let r1 = send_index now p updated in
      let m2 : List Message =
        if has_jumped now position p s then full_frame position ∷ [] else [] in
      let r3 = if carries_volume len p then send_volume now p.volume r1.0 else (r1.0, []) in
      let to_stopped = changed_to_stopped p s || first_contact_stopped p s in
      let r4 = send_transition now position (changed_to_playing p s) to_stopped r3.0 in
      All-append P r1.1 (m2 ++ (r3.1 ++ r4.1)) (send_index-Sends now p updated) (
        All-append P m2 (r3.1 ++ r4.1)
          (if_both (All P) (has_jumped now position p s) (full_frame position ∷ []) []
            (frame position, tt) tt)
          (All-append P r3.1 r4.1 (volume r1.0)
            (send_transition-Sends now position (changed_to_playing p s) to_stopped r3.0)))

send_volume-IsFollowing : (now v : ℕ) (s : MediaSyncState) → Sends IsFollowing (send_volume now v s)
unfolding send_volume
send_volume-IsFollowing now v s =
    let small : (if ltb 100 v then 100 else v) ≤ 100 = ground arith in
    if_cases (Sends IsFollowing) (not ((if ltb 100 v then 100 else v) == s.last_sent_volume)) _ _
      (λ _. (inr (refl, small), tt))
      λ _.
        if_cases (Sends IsFollowing) (leb cc7_repeat_interval_ms (sub32 now s.last_cc7_send_time)) _
          _ (λ _. (inr (refl, small), tt)) (λ _. tt)

-- Following a packet sends the host nothing but media indexes on CC#100, volumes of at most 100 on
-- CC#7, full frames, Start and Stop.
pub follow_packet-IsFollowing :
    (now mesh_now len : ℕ) (p : MediaSyncPacket) (s : MediaSyncState)
    → All IsFollowing (follow_packet now mesh_now len p s).1
follow_packet-IsFollowing now mesh_now len p s =
    follow_packet-All IsFollowing (λ v. inl refl) (λ v. tt) tt tt now mesh_now len p s
      λ t.
        if_both (Sends IsFollowing) (carries_volume len p) _ _
          (send_volume-IsFollowing now p.volume t) tt

-- A master that carries no volume (its frame is shorter than 29 bytes, or flags bit 0 is clear)
-- leaves the host's level alone: no CC#7 is sent.
pub follow_packet-IsNoVolume :
    (now mesh_now len : ℕ) (p : MediaSyncPacket) (s : MediaSyncState)
    → (len < media_sync_volume_len) ⊎ (p.flags % 2 ≡ 0)
    → All IsNoVolume (follow_packet now mesh_now len p s).1
follow_packet-IsNoVolume now mesh_now len p s h =
    let absent : carries_volume len p ≡ false = ground arith in
    follow_packet-All IsNoVolume (λ v. omega arith) (λ v. tt) tt tt now mesh_now len p s
      λ t. rw absent tt

regroup : (a b c d : List Message) → a ++ (b ++ (c ++ d)) ≡ (a ++ (b ++ c)) ++ d
regroup a b c d = sym (append_assoc a (b ++ c) d ∙ ap (λ l. a ++ l) (append_assoc b c d))

send_transition-playing :
    (now position : ℕ) (a b : Bool) (s : MediaSyncState)
    → a ≡ true
    → (send_transition now position a b s).1 ≡ full_frame position ∷ start ∷ []
unfolding send_transition
send_transition-playing now position a b s h = rw h

send_transition-stopped :
    (now position : ℕ) (a b : Bool) (s : MediaSyncState)
    → a ≡ false
    → b ≡ true
    → (send_transition now position a b s).1 ≡ cc 100 0 ∷ stop ∷ []
unfolding send_transition
send_transition-stopped now position a b s h k = rw (h, k)

-- When the master starts, the last two messages to the host are a full frame at the position that
-- is followed, then Start. When it stops, or is stopped with index 0 at the first contact, and
-- does not start, they are CC#100 = 0, then Stop.
pub follow_packet_edges :
    (now mesh_now len : ℕ) (p : MediaSyncPacket) (s : MediaSyncState)
    → let messages = (follow_packet now mesh_now len p s).1 in
      (changed_to_playing p s ≡ true
        → (before : List Message) × (messages
            ≡ before ++ full_frame (compensated_position mesh_now p) ∷ start ∷ []))
      × (changed_to_stopped p s || first_contact_stopped p s ≡ true
          → changed_to_playing p s ≡ false
          → (before : List Message) × (messages ≡ before ++ cc 100 0 ∷ stop ∷ []))
unfolding follow_packet
follow_packet_edges now mesh_now len p s = (
  λ h. (
    _,
    regroup m1 m2 m3 _
        ∙ ap (λ l. (m1 ++ (m2 ++ m3)) ++ l) (send_transition-playing now position _ _ s3 h),
  ),
  λ h k. (
    _,
    regroup m1 m2 m3 _
        ∙ ap (λ l. (m1 ++ (m2 ++ m3)) ++ l) (send_transition-stopped now position _ _ s3 k h),
  ),
)
  where
    position : ℕ
    position = compensated_position mesh_now p

    r1 : MediaSyncState × List Message
    r1 = send_index now p (
        update_sync now position p
          (record s { coarse = not (clock_trustworthy (time_delta mesh_now p)) }))

    m1 : List Message
    m1 = r1.1

    m2 : List Message
    m2 = if has_jumped now position p s then full_frame position ∷ [] else []

    r3 : MediaSyncState × List Message
    r3 = if carries_volume len p then send_volume now p.volume r1.0 else (r1.0, [])

    m3 : List Message
    m3 = r3.1

    s3 : MediaSyncState
    s3 = r3.0

-- A stopped master with a media index k other than 0: a node that is stopped too and has told its
-- host index 0 last sends CC#100 = k alone on a packet that carries no volume. With index 0 it sends
-- nothing.
pub follow_packet_stopped :
    (now mesh_now len : ℕ) (p : MediaSyncPacket) (s : MediaSyncState)
    → s.current_state ≡ 0
    → p.state ≡ 0
    → s.last_sent_index ≡ 0
    → carries_volume len p ≡ false
    → (follow_packet now mesh_now len p s).1
      ≡ (if p.media_index == 0 then [] else cc 100 p.media_index ∷ [])
unfolding follow_packet update_sync send_index send_transition has_jumped
follow_packet_stopped now mesh_now len p s c q l v = rw (jumped, v, playing, stopped) (ground arith)
  where
    jumped : has_jumped now (compensated_position mesh_now p) p s ≡ false
    jumped = ground arith

    playing : changed_to_playing p s ≡ false
    playing = ground arith

    stopped : changed_to_stopped p s || first_contact_stopped p s ≡ false
    stopped = ground arith
