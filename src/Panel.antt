-- ===== src/Panel.antt =====
-- ui.cpp: what a node shows on its LED or its display. Drawing itself is M5Unified's; the model gives
-- what is drawn. The mesh clock's state is an argument.
pub mod Colour
use nowde.Prelude.{
  ℕ, ◌+◌, ◌*◌, ◌/◌, ◌%◌, Bool, true, false, ◌&&◌, ◌||◌, not, Option, none, some, List, [], ◌∷◌, ltb,
  ◌==◌, if◌then◌else◌, ◌++◌, take, drop, replicate, strncpy, strnlen, u8, u32, sub32,
}
use nowde.Config.{role_slave, role_master, role_auto, board_atoms3, board_atoms3_lite}
use nowde.Wire.{Mac, mac_bytes}
use nowde.Sync.{MediaSyncState, MasterRelayState, host_linked, master_relay_playing}
use nowde.Tables.{count_active_senders, count_connected_receivers, count_locked_receivers}
use nowde.Effects.{Effect, clear_store, restart}
use nowde.Node.{Node}

-- The states of the mesh clock.
pub data SyncState : Type 0 where
  alone : SyncState
  synced : SyncState
  lost : SyncState

pub record Rgb : Type 0 where
  pub r : ℕ
  pub g : ℕ
  pub b : ℕ

abbrev pub rgb : ℕ → ℕ → ℕ → Rgb
rgb r g b = record { r = r; g = g; b = b }

-- The colour of a master.
unfoldable pub master_colour : ℕ → ℕ → Node → Rgb × Bool
master_colour now last n =
    let connected = count_connected_receivers n.receivers in
    let playing = master_relay_playing now n.master_relay in
    if not (host_linked now last)
    then (rgb 40 0 60, false)
    else if connected == 0
    then (rgb 60 60 0, true)
    else if playing && ltb (count_locked_receivers n.receivers) connected
    then (rgb 70 40 0, false)
    else if playing
    then (rgb 0 70 0, false)
    else (rgb 0 40 60, false)

abbrev pub is_lost : SyncState → Bool
is_lost lost = true
is_lost _ = false

abbrev pub is_alone : SyncState → Bool
is_alone alone = true
is_alone _ = false

-- The colour of any other node.
unfoldable pub slave_colour : SyncState → Node → Rgb × Bool
slave_colour sync n =
    let s = n.follower.sync in
    if s.link_lost
    then (rgb 80 0 0, false)
    else if is_lost sync
    then (rgb 80 20 0, false)
    else if is_alone sync || count_active_senders n.senders == 0
    then (rgb 60 60 0, true)
    else if s.current_state == 1 && s.coarse
    then (rgb 70 40 0, false)
    else if s.current_state == 1
    then (rgb 0 70 0, false)
    else (rgb 0 40 60, false)

-- `statusColor`: the colour, and whether it blinks. `last` is `lastHostRxTime`.
unfoldable pub status_color : ℕ → ℕ → SyncState → Node → Rgb × Bool
status_color now last sync n =
    if n.ota.in_progress
    then (rgb 80 0 80, false)
    else if n.role == role_master
    then master_colour now last n
    else slave_colour sync n

-- `ledShow`: what the LED is set to.
unfoldable pub led_show : ℕ → Rgb × Bool → Rgb
led_show now (c, blink) = if blink && now / 400 % 2 == 1 then rgb 0 0 0 else c

-- The media line of the status page. A master shows what it relays, a slave what it follows.
pub record MediaLine : Type 0 where
  pub playing : Bool
  pub index : ℕ
  pub minutes : ℕ
  pub seconds : ℕ

unfoldable pub media_line : ℕ → Node → MediaLine
media_line now n =
    let s = n.follower.sync in
    let m = n.master_relay in
    let relaying = master_relay_playing now m in
    let following = s.current_state == 1 in
    let shown : Bool → ℕ → ℕ → MediaLine = λ playing index position. record {
      playing = playing;
      index = index;
      minutes = position / 60000;
      seconds = position / 1000 % 60;
    } in
    if n.role == role_master
    then shown relaying (if relaying then m.index else 0)
        (u32 (m.position_ms + (if relaying then sub32 now m.updated_at else 0)))
    else shown following s.current_index (
        u32 (s.current_position_ms + (if following then sub32 now s.local_clock_start_time else 0)))

-- The statics of ui.cpp.
pub record Ui : Type 0 where
  pub has_display : Bool
  pub page : ℕ
  pub last_refresh : ℕ
  pub hold_armed : Bool
  pub notice : List ℕ
  pub notice_until : ℕ

-- The line of the status page below "mesh": a master counts its slaves, another node its masters.
pub data CountLine : Type 0 where
  lock_line : ℕ → ℕ → CountLine
  master_line : ℕ → CountLine

-- Its last line: the notice, or the version and whether the long-range PHY is on.
pub data BottomLine : Type 0 where
  notice_line : List ℕ → BottomLine
  version_line : Bool → BottomLine

-- `roleName` and `syncName`.
abbrev pub role_name : ℕ → List ℕ
role_name role =
    if role == role_master
    then b'M' ∷ b'A' ∷ b'S' ∷ b'T' ∷ b'E' ∷ b'R' ∷ []
    else if role == role_slave
    then b'S' ∷ b'L' ∷ b'A' ∷ b'V' ∷ b'E' ∷ []
    else b'L' ∷ b'E' ∷ b'G' ∷ b'A' ∷ b'C' ∷ b'Y' ∷ []

abbrev pub sync_name : SyncState → List ℕ
sync_name synced = b'S' ∷ b'Y' ∷ b'N' ∷ b'C' ∷ b'E' ∷ b'D' ∷ []
sync_name lost = b'L' ∷ b'O' ∷ b'S' ∷ b'T' ∷ []
sync_name alone = b'A' ∷ b'L' ∷ b'O' ∷ b'N' ∷ b'E' ∷ []

-- What `drawStatusPage` shows, the three parts of the banner's colour scaled by three.
pub record StatusPage : Type 0 where
  pub banner : Rgb
  pub role : List ℕ
  pub mesh : List ℕ
  pub counts : CountLine
  pub host : Bool
  pub layer : List ℕ
  pub media : MediaLine
  pub bottom : BottomLine

unfoldable pub status_page : ℕ → ℕ → SyncState → Node → Ui → StatusPage
status_page now last sync n u =
    let c = (status_color now last sync n).0 in
    record {
      banner = rgb (u8 (c.r * 3)) (u8 (c.g * 3)) (u8 (c.b * 3));
      role = role_name n.role;
      mesh = sync_name sync;
      counts =
          if n.role == role_master
          then lock_line (count_locked_receivers n.receivers)
              (count_connected_receivers n.receivers)
          else master_line (count_active_senders n.senders);
      host = host_linked now last;
      layer = n.subscribed_layer;
      media = media_line now n;
      bottom =
          if ltb now u.notice_until
          then notice_line (take (strnlen u.notice 24) u.notice)
          else version_line n.lr_enabled;
    }

-- What the info page reads from the chip: the address, `msSinceLastSync()`, and the free heap.
pub record Readings : Type 0 where
  pub mac : Mac
  pub ms_since_sync : ℕ
  pub free_heap : ℕ

-- What `drawInfoPage` shows. Of the address it shows the last three bytes.
pub record InfoPage : Type 0 where
  pub lcd : Bool
  pub role : List ℕ
  pub is_auto : Bool
  pub mac_tail : List ℕ
  pub uptime : ℕ
  pub synced_ago : ℕ
  pub free : ℕ

unfoldable pub info_page : ℕ → Readings → Node → InfoPage
info_page now r n = record {
  lcd = n.board == board_atoms3;
  role = role_name n.role;
  is_auto = n.stored_role == role_auto;
  mac_tail = drop 3 (mac_bytes r.mac);
  uptime = now / 1000;
  synced_ago = r.ms_since_sync;
  free = r.free_heap / 1024;
}
