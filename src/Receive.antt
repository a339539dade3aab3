-- ===== src/Receive.antt =====
-- esp_now_handlers.cpp, `onDataRecv`: what a node does with a frame that it hears.
pub mod Separation
pub mod Cases
pub mod Registry
pub mod Relayed
use nowde.Prelude.{
  ℕ, ◌+◌, Bool, true, false, ◌&&◌, not, List, [], ◌∷◌, ◌++◌, map, length, get_or, drop, ltb, leb,
  ◌==◌, if◌then◌else◌, u8, u32,
}
use nowde.Usb.{sysex_start}
use nowde.Wire.{
  Mac, media_sync_packet, media_sync_len, media_sync_min_len, mesh_relay_header,
  mesh_relay_header_len, msg_sender_beacon, msg_receiver_info, msg_media_sync, msg_mesh_relay,
}
use nowde.Relay.{handle_flood_candidate}
use nowde.Follow.{process_media_sync_packet}
use nowde.Effects.{Effect, midi}
use nowde.Tables.{handle_sender_beacon, handle_receiver_info}
use nowde.Node.{Node, World}
use nowde.Sysex.{handle_sysex_message}

-- `if (receiverModeEnabled && !senderModeEnabled) processMediaSyncPacket(origin, …)`.
unfoldable pub consume : World → Mac → List ℕ → Node → Node × List Effect
consume w origin bytes n =
    let (f, messages) =
      process_media_sync_packet w.now w.mesh_now n.subscribed_layer origin bytes n.follower in
    if n.receiver_mode && not n.sender_mode
    then (record n { follower = f }, map midi messages)
    else (n, [])

-- The call of `handleFloodCandidate`.
unfoldable pub flood : World → Mac → ℕ → ℕ → List ℕ → Bool → Node → Node
flood w origin seq hop inner is_relay n = record n {
  relay = handle_flood_candidate w.my_mac w.now w.draw origin seq hop inner is_relay n.relay;
}

-- `case ESPNOW_MSG_MEDIA_SYNC`: the sender is the origin.
unfoldable pub on_media_sync : World → Mac → List ℕ → Node → Node × List Effect
on_media_sync w src bytes n =
    let (m, effects) = consume w src bytes n in
    if leb media_sync_len (length bytes)
    then (flood w src (media_sync_packet bytes).seq 0 bytes false m, effects)
    else (m, effects)

-- `case ESPNOW_MSG_MESH_RELAY`: the origin stands in the envelope.
unfoldable pub on_mesh_relay : World → List ℕ → Node → Node × List Effect
on_mesh_relay w bytes n =
    let header = mesh_relay_header bytes in
    let inner = drop mesh_relay_header_len bytes in
    let (m, effects) = consume w header.origin inner n in
    if ltb (length bytes) (mesh_relay_header_len + media_sync_min_len)
    then (n, [])
    else (flood w header.origin header.seq header.hop inner true m, effects)

-- `onDataRecv`. `mesh_handled` is the answer of `meshClock.handleReceive`.
unfoldable pub on_data_recv : World → Bool → Mac → List ℕ → Node → Node × List Effect
on_data_recv w mesh_handled src bytes n =
    let kind = get_or bytes 0 0 in
    let (senders, sender_effects) = handle_sender_beacon w.now src n.senders in
    let (receivers, receiver_effects) = handle_receiver_info w.now src bytes n.receivers in
    if ltb (length bytes) 1
    then (n, [])
    else if mesh_handled
    then (n, [])
    else if kind == sysex_start
    then handle_sysex_message w (u8 (length bytes)) bytes n
    else if kind == msg_sender_beacon
    then (record n { senders = senders }, sender_effects)
    else if kind == msg_receiver_info
    then if n.sender_mode then (record n { receivers = receivers }, receiver_effects) else (n, [])
    else if kind == msg_media_sync
    then on_media_sync w src bytes n
    else if kind == msg_mesh_relay
    then on_mesh_relay w bytes n
    else (n, [])

-- `espnowTxOk` and `espnowTxFail`.
pub record TxCounts : Type 0 where
  pub ok : ℕ
  pub fail : ℕ

-- `onDataSent`.
unfoldable pub on_data_sent : Bool → TxCounts → TxCounts
on_data_sent success c =
    if success then record c { ok = u32 (c.ok + 1) } else record c { fail = u32 (c.fail + 1) }
