-- ===== src/Task/Stale.antt =====
-- A turn of `espnowTask` whose time is older than the packet that interrupts it: the difference of the
-- two wraps to almost 2 ^ 32 ms, which is a silence of 49 days to the check of the link.
use mathlib.Core.Path.{subst}
use nowde.Prelude.{
  ℕ, ◌+◌, ◌≤◌, ◌<◌, ◌≡◌, refl, sym, ap, ◌∙◌, false, true, List, [], ◌∷◌, ◌++◌, map, length,
  if_cases, leb, if◌then◌else◌, arith, sub32, IsInfix, infix-append, infix-append_left,
  infix-append_right,
}
use nowde.Config.{link_lost_timeout_ms}
use nowde.Tables.{cleanup_sender_table}
use nowde.Wire.{Mac, MediaSyncPacket, media_sync_bytes, broadcast_address}
use nowde.Wire.RoundTrip.{MediaSyncPacketIsValid}
use nowde.Midi.{cc, stop}
use nowde.Sync.{MediaSyncState}
use nowde.Follow.Policy.{process_media_sync_packet-SamePolicy}
use nowde.Receive.{on_data_recv}
use nowde.Receive.Relayed.{direct-Followed}
use nowde.Delivery.Air.{Listens, starts, length-media_sync_bytes, consume-follower, packet-Led}
use nowde.Effects.{Effect, midi, relay}
use nowde.Commands.{send_receiver_info}
use nowde.Relay.{process_pending_relays}
use nowde.Node.{Node, World}
use nowde.Replies.{quality}
use nowde.Resync.{mesh_resync_tick}
use nowde.Task.{Tasks, check_link, run_clock, sender_turn}
use nowde.Task.LinkLoss.{turn}
use nowde.Task.Interrupted.{Heard, interrupted_turn, interrupted_receiver_turn, hear_frames}

-- A state that plays, whose last packet came at `heard`.
abbrev IsFresh : ℕ → MediaSyncState → Type 0
IsFresh heard s = (s.current_state ≡ 1) × (s.link_lost ≡ false) × (s.last_sync_time ≡ heard)

turn_same :
    (now : ℕ) (s : MediaSyncState)
    → IsFresh now s
    → ((turn now s).0.link_lost ≡ false) × ((turn now s).0.current_state ≡ 1)
unfolding check_link run_clock
turn_same now s h = (ground arith, ground arith)

turn_older :
    (now heard : ℕ) (s : MediaSyncState)
    → IsFresh heard s
    → now < heard
    → heard ≤ now + 4294957295
    → ((turn now s).0.link_lost ≡ true)
      × (s.stop_on_link_lost ≡ true
          → ((turn now s).0.current_state ≡ 0) × ((turn now s).1 ≡ cc 100 0 ∷ stop ∷ []))
unfolding check_link run_clock
turn_older now heard s h l k =
    let e = h.2 in
    let wraps : link_lost_timeout_ms < sub32 now s.last_sync_time = omega arith in
    (ground arith, λ p. (ground arith, ground arith))

fourth_infix : (told a b c d : List Effect) → IsInfix told (a ++ (b ++ (c ++ (told ++ d))))
fourth_infix told a b c d =
    infix-append_right told _ a
      (infix-append_right told _ b (infix-append_right told (told ++ d) c (infix-append [] told d)))

abbrev pub packet_heard : World → Mac → MediaSyncPacket → Heard
packet_heard v origin p = record {
  world = v;
  mesh_handled = false;
  src = origin;
  bytes = media_sync_bytes p;
}

-- The node when the packet comes, and the state that the check of the link sees after it.
abbrev cleaned : World → Tasks → Node
cleaned w t = record t.node { senders = (cleanup_sender_table w.now t.node.senders).0 }

abbrev seen : World → World → Mac → MediaSyncPacket → Tasks → MediaSyncState
seen w v origin p t =
    (on_data_recv v false origin (media_sync_bytes p) (cleaned w t)).0.follower.sync

module _ (w v : World) (origin : Mac) (p : MediaSyncPacket) (t : Tasks)
    (valid : MediaSyncPacketIsValid p) (plays : p.state ≡ 1)
    (h : Listens v origin p.layer t.node) where
  cleaned-Listens : Listens v origin p.layer (cleaned w t)
  cleaned-Listens = record {
    receives = h.receives;
    is_slave = h.is_slave;
    takes = h.takes;
    lock = h.lock;
  }

  seen-IsFresh : IsFresh v.now (seen w v origin p t)
  seen-IsFresh =
      let (tracks, _) = packet-Led v origin p (cleaned w t) valid cleaned-Listens in
      (tracks.state ∙ plays, tracks.linked, tracks.heard)

  seen-policy : (seen w v origin p t).stop_on_link_lost ≡ t.node.follower.sync.stop_on_link_lost
  seen-policy =
      let long : 27 ≤ length (media_sync_bytes p) =
        omega (arith, length-media_sync_bytes p, valid.layer) in
      ap (λ f. f.sync.stop_on_link_lost)
        ((direct-Followed v origin (media_sync_bytes p) (cleaned w t) long (starts p)).0
          ∙ consume-follower v origin (media_sync_bytes p) (cleaned w t) h.receives h.is_slave)
      ∙ process_media_sync_packet-SamePolicy v.now v.mesh_now (cleaned w t).subscribed_layer origin
          (media_sync_bytes p) (cleaned w t).follower

  sender_turn_slave : sender_turn w.now t ≡ (t, [])
  unfolding sender_turn
  sender_turn_slave = rw h.is_slave refl

  -- The turn leaves what its check and its clock make of that state.
  interrupted_turn-sync :
      (interrupted_turn w (packet_heard v origin p ∷ []) t).0.node.follower.sync
      ≡ (turn w.now (seen w v origin p t)).0
  unfolding interrupted_turn interrupted_receiver_turn hear_frames
  interrupted_turn-sync = rw (sender_turn_slave, h.receives) refl

  receiver_turn-IsInfix :
      IsInfix
        (map midi (turn w.now (seen w v origin p t)).1)
        (interrupted_receiver_turn w (packet_heard v origin p ∷ []) t).1
  unfolding interrupted_receiver_turn hear_frames
  receiver_turn-IsInfix =
      let told = map midi (turn w.now (seen w v origin p t)).1 in
      let k = (hear_frames (packet_heard v origin p ∷ []) (cleaned w t)).0 in
      let sync = (turn w.now (seen w v origin p t)).0 in
      let m = record k { follower = record k.follower { sync = sync } } in
      let info = if leb t.next_receiver_beacon w.now then send_receiver_info w t.node else [] in
      let removed = (cleanup_sender_table w.now t.node.senders).1 in
      let heard = (hear_frames (packet_heard v origin p ∷ []) (cleaned w t)).1 in
      let healed = (mesh_resync_tick w.now (quality w m) t.resync).1 in
      if_cases (λ (r : Tasks × List Effect). IsInfix told r.1) t.node.receiver_mode _ (t, [])
        (λ _. fourth_infix told info removed heard healed) λ e. absurd (ground arith)

  interrupted_turn-IsInfix :
      IsInfix
        (map midi (turn w.now (seen w v origin p t)).1)
        (interrupted_turn w (packet_heard v origin p ∷ []) t).1
  unfolding interrupted_turn
  interrupted_turn-IsInfix =
      let told = map midi (turn w.now (seen w v origin p t)).1 in
      let after = interrupted_receiver_turn w (packet_heard v origin p ∷ []) t in
      let frames = (process_pending_relays w.now after.0.node.relay).1 in
      rw sender_turn_slave (
        infix-append_left told after.1 (map (relay broadcast_address) frames) receiver_turn-IsInfix)

-- A slave hears a packet of its master, which plays, in the middle of a turn of `espnowTask` that began
-- in an earlier millisecond, one second before at most. The turn takes the link for lost in that
-- instant; under the policy STOP it stands still and tells its host CC#100 = 0 and Stop. Had the turn
-- begun in the millisecond of the packet, the node would play on.
pub interrupted_turn_stale :
    (w u v : World) (origin : Mac) (p : MediaSyncPacket) (t : Tasks)
    → MediaSyncPacketIsValid p
    → p.state ≡ 1
    → Listens v origin p.layer t.node
    → t.node.follower.sync.stop_on_link_lost ≡ true
    → w.now < v.now
    → v.now ≤ w.now + 1000
    → u.now ≡ v.now
    → let frame = packet_heard v origin p in
      let (stale, told) = interrupted_turn w (frame ∷ []) t in
      let fresh = (interrupted_turn u (frame ∷ []) t).0 in
      (stale.node.follower.sync.link_lost ≡ true)
      × (stale.node.follower.sync.current_state ≡ 0)
      × IsInfix (midi (cc 100 0) ∷ midi stop ∷ []) told
      × (fresh.node.follower.sync.link_lost ≡ false)
      × (fresh.node.follower.sync.current_state ≡ 1)
interrupted_turn_stale w u v origin p t valid plays h policy l k e =
    let at : World → MediaSyncState = λ x. seen x v origin p t in
    let (lost, halts) =
      turn_older w.now v.now (at w) (seen-IsFresh w v origin p t valid plays h) l (omega arith) in
    let (halted, says) = halts (seen-policy w v origin p t valid plays h ∙ policy) in
    let (kept, plays_on) =
      turn_same u.now (at u)
        (subst (λ n. IsFresh n (at u)) (sym e) (seen-IsFresh u v origin p t valid plays h)) in
    rw
      (
        interrupted_turn-sync w v origin p t valid plays h,
        interrupted_turn-sync u v origin p t valid plays h,
      )
      (
        lost,
        halted,
        subst (λ m. IsInfix (map midi m) (interrupted_turn w (packet_heard v origin p ∷ []) t).1)
            says (interrupted_turn-IsInfix w v origin p t valid plays h),
        kept,
        plays_on,
      )
