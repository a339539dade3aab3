-- ===== src/Commands.antt =====
-- sysex.cpp: the configuration commands of a host, one function for each case of the switch.
use nowde.Prelude.{
  ℕ, ◌+◌, ◌-◌, ◌*◌, Bool, true, false, ◌&&◌, ◌||◌, not, List, [], ◌∷◌, ◌++◌, length, get_or, take,
  drop, ltb, leb, ◌==◌, if◌then◌else◌, u16, u32, strncpy, strnlen, none,
}
use nowde.Config.{
  role_slave, role_master, role_auto, error_espnow_send_failed, error_receiver_timeout, version,
  max_version_length,
}
use nowde.Codec.{low7, decode7bit}
use nowde.Usb.{sysex_start, sysex_end}
use nowde.Wire.{
  Mac, mac_of, mac_bytes, MediaSyncPacket, media_sync_bytes, broadcast_address, ReceiverInfo,
  receiver_info_bytes,
}
use nowde.Slots.{Slot, found, find_slot}
use nowde.Sync.{MasterRelayState, OriginLock, origin_release}
use nowde.Effects.{
  Effect, Key, esp_now_send, relay, put_layer, put_byte, log_enable, restart, loss, lr,
}
use nowde.Tables.{SenderEntry, is_receiver, layer_buffer}
use nowde.Node.{Node, World, DelayedPacket, apply_role, resolve_role}
use nowde.Replies.{send_hello, send_config_state, send_running_state, send_error_report, quality}
use nowde.Ota.{config_error}

-- `if (!senderModeEnabled && nodeRole != NOWDE_ROLE_SLAVE) senderModeEnabled = true;`
abbrev pub become_sender : Node → Node
become_sender n = record n { sender_mode = n.sender_mode || not (n.role == role_slave) }

-- `SYSEX_CMD_QUERY_CONFIG`.
unfoldable pub query_config : World → Node → Node × List Effect
query_config w n =
    let m = record (become_sender n) { host_resumed = false } in
    (m, send_hello w m ∷ send_config_state m ∷ [])

-- `SYSEX_CMD_PUSH_FULL_CONFIG`.
unfoldable pub push_full_config : World → ℕ → List ℕ → Node → Node × List Effect
push_full_config w len bytes n =
    let m = record (become_sender n) {
      rf_simulation = not (get_or bytes 3 0 == 0);
      rf_max_delay_ms = low7 (get_or bytes 4 0) * 128 + low7 (get_or bytes 5 0);
    } in
    if ltb len 6 then (n, config_error ∷ []) else (m, send_config_state m ∷ [])

-- `SYSEX_CMD_QUERY_RUNNING_STATE`. After its HELLO the node waits for 20 ms.
unfoldable pub query_running_state : World → Node → Node × List Effect
query_running_state w n =
    let hello = send_hello w (record n { host_resumed = false }) in
    let later = record w { now = if n.host_resumed then u32 (w.now + 20) else w.now } in
    let (m, states) = send_running_state later (record n { host_resumed = false }) in
    if n.sender_mode
    then (m, if n.host_resumed then hello ∷ states else states)
    else (record n { host_resumed = false }, hello ∷ [])

-- The loop of `sendReceiverInfo`.
unfoldable pub inform : List ℕ → List SenderEntry → List Effect
inform bytes [] = []
inform bytes (e ∷ t) =
    if e.active then esp_now_send e.mac bytes ∷ inform bytes t else inform bytes t

-- What a node reports of itself.
abbrev pub report_of : World → Node → ReceiverInfo
report_of w n = record {
  layer = layer_buffer n.subscribed_layer;
  version = take 7 (strncpy max_version_length version) ++ 0 ∷ [];
  media_index = n.follower.sync.current_index;
  sync_quality = quality w n;
  sync_gaps = n.follower.sync.sync_gaps;
}

-- `sendReceiverInfo`.
unfoldable pub send_receiver_info : World → Node → List Effect
send_receiver_info w n =
    if not n.receiver_mode || strnlen n.subscribed_layer 15 == 0
    then []
    else inform (receiver_info_bytes (report_of w n)) n.senders

-- The position of MEDIA_SYNC: four bytes, their top bits in the byte before.
abbrev pub media_position : List ℕ → ℕ
media_position bytes =
    let b = decode7bit (take 5 (drop 20 bytes)) in
    get_or b 0 0 * 16777216 + get_or b 1 0 * 65536 + get_or b 2 0 * 256 + get_or b 3 0

-- The packet that a MEDIA_SYNC of the host becomes.
unfoldable pub media_packet : World → ℕ → List ℕ → ℕ → MediaSyncPacket
media_packet w len bytes seq = record {
  layer = layer_buffer (take 15 (drop 3 bytes) ++ 0 ∷ []);
  media_index = get_or bytes 19 0;
  position_ms = media_position bytes;
  state = get_or bytes 25 0;
  mesh_timestamp = w.mesh_now;
  volume = if leb 29 len then low7 (get_or bytes 26 0) else 0;
  flags = if leb 29 len then low7 (get_or bytes 27 0) else 0;
  seq = seq;
}

-- RF simulation: the first inactive slot keeps the packet; with none left it is lost.
pub delay_packet : DelayedPacket → List DelayedPacket → List DelayedPacket
delay_packet q [] = []
delay_packet q (p ∷ rest) = if p.active then p ∷ delay_packet q rest else q ∷ rest

-- `SYSEX_CMD_MEDIA_SYNC`. `w.draw` is what `random` draws from 0 to `rfSimMaxDelayMs`.
unfoldable pub media_sync : World → ℕ → List ℕ → Node → Node × List Effect
media_sync w len bytes n =
    let seq = u16 (n.media_seq + 1) in
    let p = media_packet w len bytes seq in
    let shown : MasterRelayState = record {
      index = p.media_index;
      position_ms = p.position_ms;
      state = p.state;
      updated_at = w.now;
    } in
    let m = record n { media_seq = seq; master_relay = shown } in
    let held : DelayedPacket = record {
      active = true;
      send_time = u32 (w.now + w.draw);
      packet = p;
    } in
    if not (n.sender_mode && leb 27 len)
    then (n, [])
    else if n.rf_simulation
    then (record m { delayed = delay_packet held n.delayed }, [])
    else (m, relay broadcast_address (media_sync_bytes p) ∷ [])

-- The answer of a master to CHANGE_RECEIVER_LAYER, once the table is searched.
unfoldable pub pass_layer : World → Mac → List ℕ → Slot → List Effect
pass_layer w target layer (found i) =
    esp_now_send target
      (sysex_start ∷ 0x7D ∷ 0x11 ∷ take (strnlen layer 16) layer ++ sysex_end ∷ [])
    ∷ (if w.send_ok
        then []
        else send_error_report error_espnow_send_failed (mac_bytes target) 6 ∷ [])
pass_layer w target layer _ = send_error_report error_receiver_timeout (mac_bytes target) 6 ∷ []

-- The layer that a short frame names, in the buffer `subscribedLayer`.
abbrev pub short_layer : ℕ → List ℕ → List ℕ
short_layer len bytes =
    layer_buffer (take (if ltb 15 (len - 4) then 15 else len - 4) (drop 3 bytes) ++ 0 ∷ [])

-- `SYSEX_CMD_CHANGE_RECEIVER_LAYER`: a master passes a long frame on, a slave obeys a short one.
unfoldable pub change_receiver_layer : World → ℕ → List ℕ → Node → Node × List Effect
change_receiver_layer w len bytes n =
    let target = mac_of (decode7bit (take 7 (drop 3 bytes))) in
    let layer = take 15 (decode7bit (take 19 (drop 10 bytes))) ++ 0 ∷ [] in
    let m = record n { subscribed_layer = short_layer len bytes } in
    if n.sender_mode && leb 29 len
    then (
      n,
      pass_layer w target layer
          (find_slot (is_receiver target) (λ e. not e.active) n.receivers 0 none),
    )
    else if n.receiver_mode && leb 4 len
    then (m, put_layer m.subscribed_layer ∷ send_receiver_info w m)
    else (n, [])

-- `SYSEX_CMD_SET_ROLE`.
unfoldable pub set_role : World → ℕ → List ℕ → Node → Node × List Effect
set_role w len bytes n =
    let r = get_or bytes 3 0 in
    let (m, forgotten) = apply_role (resolve_role n.board r) (record n { stored_role = r }) in
    if ltb len 5
    then (n, config_error ∷ [])
    else if not (r == role_slave) && (not (r == role_master) && not (r == role_auto))
    then (n, send_error_report 1 (r ∷ []) 1 ∷ [])
    else (m, put_byte Key.role r ∷ forgotten ++ (send_hello w m ∷ send_config_state m ∷ []))

-- `length >= 5 && (bytes[3] == 0 || bytes[3] == 1)`.
abbrev pub is_switch : ℕ → List ℕ → Bool
is_switch len bytes = leb 5 len && (get_or bytes 3 0 == 0 || get_or bytes 3 0 == 1)

-- `SYSEX_CMD_SET_LR`.
unfoldable pub set_lr : World → ℕ → List ℕ → Node → Node × List Effect
set_lr w len bytes n =
    let m = record n { lr_enabled = get_or bytes 3 0 == 1 } in
    if is_switch len bytes
    then (m, put_byte lr (get_or bytes 3 0) ∷ send_hello w m ∷ restart ∷ [])
    else (n, config_error ∷ [])

-- `SYSEX_CMD_SET_LOSS_POLICY`.
unfoldable pub set_loss_policy : ℕ → List ℕ → Node → Node × List Effect
set_loss_policy len bytes n =
    let stop = get_or bytes 3 0 == 1 in
    let sync = record n.follower.sync { stop_on_link_lost = stop } in
    let m = record n { follower = record n.follower { sync = sync } } in
    if is_switch len bytes
    then (m, put_byte loss (get_or bytes 3 0) ∷ send_config_state m ∷ [])
    else (n, config_error ∷ [])

-- `SYSEX_CMD_SET_ORIGIN`.
unfoldable pub set_origin : World → ℕ → List ℕ → Node → Node × List Effect
set_origin w len bytes n =
    let released = record n { follower = origin_release n.follower } in
    let b = decode7bit (take 7 (drop 3 bytes)) in
    let lock : OriginLock = record {
      mac = mac_of b;
      valid = true;
      pinned = true;
      last_heard = w.now;
    } in
    let sync = record n.follower.sync { have_seq = false } in
    let pinned = record n { follower = record { sync = sync; lock = lock } } in
    if len == 4
    then (released, send_config_state released ∷ [])
    else if leb 11 len
    then if ltb (length b) 6
      then (n, config_error ∷ [])
      else (pinned, send_config_state pinned ∷ [])
    else (n, config_error ∷ [])

-- `SYSEX_CMD_SET_LOCAL_LAYER`.
unfoldable pub set_local_layer : World → ℕ → List ℕ → Node → Node × List Effect
set_local_layer w len bytes n =
    let m = record n { subscribed_layer = short_layer len bytes } in
    if ltb len 5
    then (n, config_error ∷ [])
    else (m, put_layer m.subscribed_layer ∷ send_receiver_info w m ++ (send_config_state m ∷ []))

-- `SYSEX_CMD_SET_LOG`.
unfoldable pub set_log : ℕ → List ℕ → Node → Node × List Effect
set_log len bytes n =
    if ltb len 5 then (n, config_error ∷ []) else (n, log_enable (not (get_or bytes 3 0 == 0)) ∷ [])
