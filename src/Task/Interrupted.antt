-- ===== src/Task/Interrupted.antt =====
-- main.cpp, `espnowTask`: a turn that the receive callback interrupts. The Wi-Fi task runs it on the
-- other core; the turn has read its time before, and checks the link after it.
use nowde.Prelude.{ℕ, ◌+◌, ◌≡◌, refl, Bool, List, [], ◌∷◌, ◌++◌, map, leb, if◌then◌else◌, u32}
use nowde.Config.{receiver_beacon_interval_ms}
use nowde.Wire.{Mac, broadcast_address}
use nowde.Relay.{process_pending_relays}
use nowde.Effects.{Effect, relay, midi}
use nowde.Tables.{cleanup_sender_table}
use nowde.Node.{Node, World}
use nowde.Replies.{quality}
use nowde.Commands.{send_receiver_info}
use nowde.Receive.{on_data_recv}
use nowde.Resync.{mesh_resync_tick}
use nowde.Task.{Tasks, sender_turn, receiver_turn, check_link, run_clock, espnow_turn}

-- A call of `onDataRecv`, and what the chip answers to it.
pub record Heard : Type 0 where
  pub world : World
  pub mesh_handled : Bool
  pub src : Mac
  pub bytes : List ℕ

-- The calls, one after the other.
unfoldable pub hear_frames : List Heard → Node → Node × List Effect
hear_frames [] n = (n, [])
hear_frames (h ∷ hs) n =
    let (m, effects) = on_data_recv h.world h.mesh_handled h.src h.bytes n in
    let (k, rest) = hear_frames hs m in (k, effects ++ rest)

-- "Receiver mode operations", with the frames that are heard just before the check of the link.
unfoldable pub interrupted_receiver_turn : World → List Heard → Tasks → Tasks × List Effect
interrupted_receiver_turn w hs t =
    let n = t.node in
    let due = leb t.next_receiver_beacon w.now in
    let info = if due then send_receiver_info w n else [] in
    let (senders, removed) = cleanup_sender_table w.now n.senders in
    let (k, heard) = hear_frames hs (record n { senders = senders }) in
    let (checked, lost) = check_link w.now k.follower.sync in
    let (running, code) = run_clock w.now checked in
    let m = record k { follower = record k.follower { sync = running } } in
    let (resync, healed) = mesh_resync_tick w.now (quality w m) t.resync in
    if n.receiver_mode
    then (
      record t {
        node = m;
        resync = resync;
        next_receiver_beacon =
            if due
            then u32 (w.now + receiver_beacon_interval_ms + w.draw)
            else t.next_receiver_beacon;
      },
      info ++ (removed ++ (heard ++ (map midi (lost ++ code) ++ healed))),
    )
    else (t, [])

-- The whole turn.
unfoldable pub interrupted_turn : World → List Heard → Tasks → Tasks × List Effect
interrupted_turn w hs t =
    let (t1, e1) = sender_turn w.now t in
    let (t2, e2) = interrupted_receiver_turn w hs t1 in
    let (r, frames) = process_pending_relays w.now t2.node.relay in
    (
      record t2 { node = record t2.node { relay = r } },
      e1 ++ (e2 ++ map (relay broadcast_address) frames),
    )

-- A turn that nothing interrupts is the turn of the task.
pub interrupted_turn-espnow_turn :
    (w : World) (t : Tasks) → interrupted_turn w [] t ≡ espnow_turn w t
unfolding interrupted_turn interrupted_receiver_turn hear_frames espnow_turn receiver_turn
interrupted_turn-espnow_turn w t = refl
