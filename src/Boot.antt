-- ===== src/Boot.antt =====
-- storage.cpp and `setup` of main.cpp: what the NVS store holds, and the node that a boot makes of it.
pub mod Layer
pub mod Product
pub mod Quiet
pub mod Kept
pub mod Changes
pub mod Restores
pub mod Reboot
use nowde.Prelude.{
  ℕ, Bool, true, false, not, Option, none, some, List, [], ◌∷◌, ◌++◌, replicate, length, take,
  strnlen, ◌==◌, if◌then◌else◌,
}
use nowde.Config.{
  role_auto, role_legacy, max_senders, max_receivers, max_relay_origins, max_pending_relays,
}
use nowde.Wire.{Mac, MediaSyncPacket, broadcast_address}
use nowde.Relay.{RelayOriginEntry, PendingRelay}
use nowde.Sync.{initial_sync, initial_lock}
use nowde.Effects.{Effect, Key, add_peer, put_layer, put_byte, clear_store}
use nowde.Tables.{SenderEntry, layer_buffer}
use nowde.Node.{
  Node, DelayedPacket, World, empty_receiver, apply_role, resolve_role, load_role, load_flag,
  load_reboot_count,
}
use nowde.Replies.{send_hello}

-- The `nowde` namespace of the store; a namespace that is not there has no keys.
pub record Store : Type 0 where
  pub layer : Option (List ℕ)
  pub role : Option ℕ
  pub lr : Option ℕ
  pub loss : Option ℕ
  pub resyncrb : Option ℕ

abbrev pub empty_store : Store
empty_store = record { layer = none; role = none; lr = none; loss = none; resyncrb = none }

-- The string in a buffer of 16: what `putString` gets.
abbrev pub c_string : List ℕ → List ℕ
c_string buffer = take (strnlen buffer 16) buffer

-- `saveRoleToEEPROM`.
abbrev pub save_role : ℕ → Store → Store
save_role v s = record s { role = some v }

-- `saveLrToEEPROM`.
abbrev pub save_lr : ℕ → Store → Store
save_lr v s = record s { lr = some v }

-- `saveLossPolicyToEEPROM`.
abbrev pub save_loss_policy : ℕ → Store → Store
save_loss_policy v s = record s { loss = some v }

-- `saveResyncRebootCount`.
abbrev pub save_resync_reboot_count : ℕ → Store → Store
save_resync_reboot_count v s = record s { resyncrb = some v }

unfoldable pub save_byte : Key → ℕ → Store → Store
save_byte Key.role v s = save_role v s
save_byte Key.lr v s = save_lr v s
save_byte Key.loss v s = save_loss_policy v s
save_byte Key.resyncrb v s = save_resync_reboot_count v s

-- `saveLayerToEEPROM`.
abbrev pub save_layer : List ℕ → Store → Store
save_layer buffer s = record s { layer = some (c_string buffer) }

-- `clearEEPROM`.
abbrev pub clear_eeprom : Store
clear_eeprom = empty_store

-- What an effect does to the store.
unfoldable pub store_effect : Effect → Store → Store
store_effect (put_layer buffer) s = save_layer buffer s
store_effect (put_byte k v) s = save_byte k v s
store_effect clear_store s = clear_eeprom
store_effect _ s = s

unfoldable pub store_all : List Effect → Store → Store
store_all [] s = s
store_all (e ∷ es) s = store_all es (store_effect e s)

-- What a build sets: DEFAULT_RECEIVER_LAYER, NOWDE_WIFI_LR, NOWDE_STOP_ON_LINK_LOST.
pub record Build : Type 0 where
  pub layer : List ℕ
  pub lr : Bool
  pub loss : Bool

-- `loadLayerFromEEPROM`.
unfoldable pub load_layer : Build → Option (List ℕ) → List ℕ
load_layer b none = b.layer
load_layer b (some layer) = layer

-- The layer that `setup` subscribes to: an empty one counts as none.
unfoldable pub boot_layer : Build → Option (List ℕ) → List ℕ
boot_layer b stored =
    let layer = load_layer b stored in layer_buffer (if length layer == 0 then b.layer else layer)

abbrev no_mac : Mac
no_mac = record { m0 = 0; m1 = 0; m2 = 0; m3 = 0; m4 = 0; m5 = 0 }

abbrev no_origin : RelayOriginEntry
no_origin = record { mac = no_mac; last_seq = 0; valid = false }

abbrev no_pending : PendingRelay
no_pending = record {
  active = false;
  send_time = 0;
  origin = no_mac;
  seq = 0;
  hop = 0;
  payload = [];
}

abbrev no_packet : MediaSyncPacket
no_packet = record {
  layer = replicate 16 0;
  media_index = 0;
  position_ms = 0;
  state = 0;
  mesh_timestamp = 0;
  volume = 0;
  flags = 0;
  seq = 0;
}

-- The globals before `setup`.
unfoldable pub power_on : Build → Node
power_on b = record {
  role = role_legacy;
  stored_role = role_auto;
  board = 0;
  sender_mode = false;
  receiver_mode = false;
  host_resumed = false;
  lr_enabled = b.lr;
  rf_simulation = false;
  rf_max_delay_ms = 400;
  subscribed_layer = replicate 16 0;
  follower = record { sync = initial_sync; lock = initial_lock };
  senders = replicate max_senders (record { mac = no_mac; last_seen = 0; active = false });
  receivers = replicate max_receivers empty_receiver;
  relay = record {
    origins = replicate max_relay_origins no_origin;
    pending = replicate max_pending_relays no_pending;
  };
  delayed = replicate 20 (record { active = false; send_time = 0; packet = no_packet });
  master_relay = record { index = 0; position_ms = 0; state = 0; updated_at = 0 };
  ota = record { in_progress = false; total = 0; received = 0; start_time = 0 };
  media_seq = 0;
  last_running_state = 0;
}

-- `setup` up to the HELLO: the board, the role, and what the host hears first.
unfoldable pub resolve_boot : Build → ℕ → Store → Node
resolve_boot b board s =
    let stored = load_role s.role in
    record (power_on b) { board = board; stored_role = stored; role = resolve_role board stored }

-- `loadLrFromEEPROM`.
abbrev pub load_lr : Build → Store → Bool
load_lr b s = load_flag b.lr s.lr

-- `loadLossPolicyFromEEPROM`.
abbrev pub load_loss_policy : Build → Store → Bool
load_loss_policy b s = load_flag b.loss s.loss

-- What `setup` loads next: the LR switch and the loss policy.
abbrev pub load_settings : Build → ℕ → Store → Node
load_settings b board s =
    let n = resolve_boot b board s in
    let sync = record n.follower.sync { stop_on_link_lost = load_loss_policy b s } in
    record n { lr_enabled = load_lr b s; follower = record n.follower { sync = sync } }

-- What it subscribes to, once ESP-NOW is up.
abbrev pub load_subscription : Build → ℕ → Store → Node
load_subscription b board s = record (load_settings b board s) {
  subscribed_layer = boot_layer b s.layer;
}

-- `addBroadcastPeer`: the mesh clock may have added the same peer before.
unfoldable pub add_broadcast_peer : World → List Effect
add_broadcast_peer w = if w.peer_exists then [] else add_peer broadcast_address ∷ []

-- The rest of `setup`. `esp_now_ok` says that `esp_now_init` succeeds; when it does not, `setup`
-- returns at once, and no task runs.
unfoldable pub setup : World → Build → ℕ → Bool → Store → Node × List Effect
setup w b board esp_now_ok s =
    let n = resolve_boot b board s in
    let loaded = load_subscription b board s in
    let (ready, forgotten) = apply_role loaded.role loaded in
    if esp_now_ok
    then (ready, send_hello w n ∷ (add_broadcast_peer w ++ forgotten))
    else (load_settings b board s, send_hello w n ∷ [])
