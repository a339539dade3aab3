-- ===== src/Node.antt =====
-- nowde_state.cpp and main.cpp: the state of one node, its role, and what it loads at boot.
use nowde.Prelude.{
  replicate, ℕ, Bool, true, false, ◌&&◌, not, Option, none, some, List, [], ◌∷◌, map, ◌==◌,
  if◌then◌else◌,
}
use nowde.Config.{board_atoms3, board_atoms3_lite, role_slave, role_master, role_legacy, role_auto}
use nowde.Wire.{Mac, MediaSyncPacket}
use nowde.Relay.{Relay}
use nowde.Sync.{Follower, MasterRelayState}
use nowde.Effects.{Effect, del_peer}
use nowde.Tables.{SenderEntry, ReceiverEntry}

-- `DelayedMediaSyncPacket`, for the RF simulation; its receiver is always the broadcast address.
pub record DelayedPacket : Type 0 where
  pub active : Bool
  pub send_time : ℕ
  pub packet : MediaSyncPacket

-- The OTA session.
pub record Ota : Type 0 where
  pub in_progress : Bool
  pub total : ℕ
  pub received : ℕ
  pub start_time : ℕ

-- The globals of the firmware.
pub record Node : Type 0 where
  pub role : ℕ
  pub stored_role : ℕ
  pub board : ℕ
  pub sender_mode : Bool
  pub receiver_mode : Bool
  pub host_resumed : Bool
  pub lr_enabled : Bool
  pub rf_simulation : Bool
  pub rf_max_delay_ms : ℕ
  pub subscribed_layer : List ℕ
  pub follower : Follower
  pub senders : List SenderEntry
  pub receivers : List ReceiverEntry
  pub relay : Relay
  pub delayed : List DelayedPacket
  pub master_relay : MasterRelayState
  pub ota : Ota
  pub media_seq : ℕ
  pub last_running_state : ℕ

-- What the chip and its libraries answer while a handler runs.
pub record World : Type 0 where
  pub now : ℕ
  pub mesh_now : ℕ
  pub synced : Bool
  pub my_mac : Mac
  pub reset_reason : ℕ
  pub draw : ℕ
  pub send_ok : Bool
  pub peer_exists : Bool
  pub update_running : Bool
  pub update_begins : Bool
  pub update_written : List ℕ → ℕ
  pub update_ends : Bool

-- The role of a board, where `storedRole` is AUTO: of `setup` and of SET_ROLE.
unfoldable pub resolve_role : ℕ → ℕ → ℕ
resolve_role board stored =
    if stored == role_auto
    then if board == board_atoms3
      then role_master
      else if board == board_atoms3_lite
      then role_slave
      else role_legacy
    else stored

-- An entry of `receiverTable` after `ReceiverEntry{}`.
abbrev pub empty_receiver : ReceiverEntry
empty_receiver = record {
  mac = record { m0 = 0; m1 = 0; m2 = 0; m3 = 0; m4 = 0; m5 = 0 };
  layer = replicate 16 0;
  version = replicate 8 0;
  last_seen = 0;
  active = false;
  connected = false;
  media_index = 0;
  sync_quality = 255;
  sync_gaps = 0;
}

-- The peers that a node forgets when it stops being a sender.
unfoldable pub forget_peers : List ReceiverEntry → List Effect
forget_peers [] = []
forget_peers (e ∷ t) = if e.active then del_peer e.mac ∷ forget_peers t else forget_peers t

-- `applyRole`.
unfoldable pub apply_role : ℕ → Node → Node × List Effect
apply_role role n =
    let m = record n { role = role; receiver_mode = true } in
    let emptied = map (λ e. empty_receiver) n.receivers in
    if role == role_master
    then (record m { sender_mode = true }, [])
    else if role == role_slave
    then (
      record m { sender_mode = false; receivers = if n.sender_mode then emptied else n.receivers },
      if n.sender_mode then forget_peers n.receivers else [],
    )
    else (m, [])

-- `loadRoleFromEEPROM`: what the store holds, or nothing. Any byte but a slave's or a master's
-- reads as AUTO.
unfoldable pub load_role : Option ℕ → ℕ
load_role none = role_auto
load_role (some r) = if not (r == role_slave) && not (r == role_master) then role_auto else r

-- `loadLrFromEEPROM` and `loadLossPolicyFromEEPROM`: a byte, or the build's default.
unfoldable pub load_flag : Bool → Option ℕ → Bool
load_flag default none = default
load_flag default (some v) = not (v == 0)

-- `loadResyncRebootCount`.
unfoldable pub load_reboot_count : Option ℕ → ℕ
load_reboot_count none = 0
load_reboot_count (some v) = v
