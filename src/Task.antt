-- ===== src/Task.antt =====
-- main.cpp, `espnowTask`: one turn of the loop that runs every 10 ms.
pub mod LinkLoss
pub mod Interrupted
pub mod Stale
use nowde.Prelude.{
  ℕ, ◌+◌, ◌/◌, Bool, true, false, ◌&&◌, not, List, [], ◌∷◌, ◌++◌, map, ltb, leb, ◌==◌,
  if◌then◌else◌, u32, sub32,
}
use nowde.Config.{sender_beacon_interval_ms, receiver_beacon_interval_ms, link_lost_timeout_ms}
use nowde.Wire.{broadcast_address, media_sync_bytes, msg_sender_beacon}
use nowde.Midi.{mtc_framerate, Message, cc, stop, time_code}
use nowde.Relay.{process_pending_relays}
use nowde.Sync.{MediaSyncState}
use nowde.Effects.{Effect, esp_now_send, relay, midi}
use nowde.Tables.{cleanup_sender_table, cleanup_receiver_table}
use nowde.Node.{Node, World, DelayedPacket}
use nowde.Replies.{quality}
use nowde.Commands.{send_receiver_info}
use nowde.Resync.{Resync, mesh_resync_tick}

-- The locals of the task, the statics of `meshResyncTick`, and the node.
pub record Tasks : Type 0 where
  pub node : Node
  pub resync : Resync
  pub last_sender_beacon : ℕ
  pub next_receiver_beacon : ℕ

-- The delayed packets whose time has come.
pub release_delayed : ℕ → List DelayedPacket → List DelayedPacket × List Effect
release_delayed now [] = ([], [])
release_delayed now (p ∷ rest) =
    let (rest', effects) = release_delayed now rest in
    if p.active && leb p.send_time now
    then (
      record p { active = false } ∷ rest',
      esp_now_send broadcast_address (media_sync_bytes p.packet) ∷ effects,
    )
    else (p ∷ rest', effects)

-- `sendSenderBeacon`.
unfoldable pub send_sender_beacon : Node → List Effect
send_sender_beacon n =
    if n.sender_mode then esp_now_send broadcast_address (msg_sender_beacon ∷ []) ∷ [] else []

-- "Sender mode operations". (`reportReceiversToBridge` does nothing.)
unfoldable pub sender_turn : ℕ → Tasks → Tasks × List Effect
sender_turn now t =
    let n = t.node in
    let due = leb sender_beacon_interval_ms (sub32 now t.last_sender_beacon) in
    let beacon = if due then send_sender_beacon n else [] in
    let (receivers, removed) = cleanup_receiver_table now n.receivers in
    let (released, sends) = release_delayed now n.delayed in
    let delayed = if n.rf_simulation then released else n.delayed in
    let late = if n.rf_simulation then sends else [] in
    if n.sender_mode
    then (
      record t {
        node = record n { receivers = receivers; delayed = delayed };
        last_sender_beacon = if due then now else t.last_sender_beacon;
      },
      beacon ++ (removed ++ late),
    )
    else (t, [])

-- "Check for link lost condition".
unfoldable pub check_link : ℕ → MediaSyncState → MediaSyncState × List Message
check_link now s =
    if (s.current_state == 1 && not s.link_lost)
      && ltb link_lost_timeout_ms (sub32 now s.last_sync_time)
    then if s.stop_on_link_lost
      then (
        record s { link_lost = true; current_state = 0; last_sent_index = 0 },
        cc 100 0 ∷ stop ∷ [],
      )
      else (record s { link_lost = true }, [])
    else (s, [])

-- "Continuous MTC clock generation when playing".
unfoldable pub run_clock : ℕ → MediaSyncState → MediaSyncState × List Message
run_clock now s =
    let position = u32 (s.current_position_ms + sub32 now s.local_clock_start_time) in
    if s.current_state == 1 && leb (1000 / mtc_framerate) (sub32 now s.last_mtc_update_time)
    then (record s { last_mtc_update_time = now }, time_code position ∷ [])
    else (s, [])

-- "Receiver mode operations". `w.draw` is what `random(0, 200)` draws.
unfoldable pub receiver_turn : World → Tasks → Tasks × List Effect
receiver_turn w t =
    let n = t.node in
    let due = leb t.next_receiver_beacon w.now in
    let info = if due then send_receiver_info w n else [] in
    let (senders, removed) = cleanup_sender_table w.now n.senders in
    let (checked, lost) = check_link w.now n.follower.sync in
    let (running, code) = run_clock w.now checked in
    let follower = record n.follower { sync = running } in
    let m = record n { senders = senders; follower = follower } in
    let (resync, healed) = mesh_resync_tick w.now (quality w m) t.resync in
    if n.receiver_mode
    then (
      record t {
        node = m;
        resync = resync;
        next_receiver_beacon =
            if due
            then u32 (w.now + receiver_beacon_interval_ms + w.draw)
            else t.next_receiver_beacon;
      },
      info ++ (removed ++ (map midi (lost ++ code) ++ healed)),
    )
    else (t, [])

-- One turn of `espnowTask`.
unfoldable pub espnow_turn : World → Tasks → Tasks × List Effect
espnow_turn w t =
    let (t1, e1) = sender_turn w.now t in
    let (t2, e2) = receiver_turn w t1 in
    let (r, frames) = process_pending_relays w.now t2.node.relay in
    (
      record t2 { node = record t2.node { relay = r } },
      e1 ++ (e2 ++ map (relay broadcast_address) frames),
    )
