-- ===== src/Sysex.antt =====
-- sysex.cpp, `handleSysExMessage`: a frame from the host, or from a master over ESP-NOW.
pub mod Roles
pub mod Tables
use nowde.Prelude.{
  ℕ, ◌-◌, Bool, ◌&&◌, ◌||◌, not, List, [], ◌∷◌, get_or, take, ltb, ◌==◌, if◌then◌else◌,
}
use nowde.Config.{error_sysex_parse}
use nowde.Usb.{sysex_start, sysex_end}
use nowde.Effects.{Effect}
use nowde.Node.{Node, World}
use nowde.Replies.{send_error_report}
use nowde.Ota.{ota_begin, ota_data, ota_data_acked, ota_end}
use nowde.Commands.{
  query_config, push_full_config, query_running_state, media_sync, change_receiver_layer, set_role,
  set_lr, set_loss_policy, set_origin, set_local_layer, set_log,
}

-- The SYSEX_CMD_* codes that `handleSysExMessage` knows.
pub data Command : Type 0 where
  cmd_query_config : Command
  cmd_push_full_config : Command
  cmd_query_running_state : Command
  cmd_enter_bootloader : Command
  cmd_ota_begin : Command
  cmd_ota_data : Command
  cmd_ota_end : Command
  cmd_set_role : Command
  cmd_set_local_layer : Command
  cmd_set_log : Command
  cmd_set_lr : Command
  cmd_ota_data_acked : Command
  cmd_set_loss_policy : Command
  cmd_set_origin : Command
  cmd_media_sync : Command
  cmd_change_receiver_layer : Command
  cmd_unknown : Command

abbrev pub command_of : ℕ → Command
command_of c =
    if c == 0x01
    then cmd_query_config
    else if c == 0x02
    then cmd_push_full_config
    else if c == 0x03
    then cmd_query_running_state
    else if c == 0x04
    then cmd_enter_bootloader
    else if c == 0x05
    then cmd_ota_begin
    else if c == 0x06
    then cmd_ota_data
    else if c == 0x07
    then cmd_ota_end
    else if c == 0x08
    then cmd_set_role
    else if c == 0x09
    then cmd_set_local_layer
    else if c == 0x0A
    then cmd_set_log
    else if c == 0x0B
    then cmd_set_lr
    else if c == 0x0C
    then cmd_ota_data_acked
    else if c == 0x0D
    then cmd_set_loss_policy
    else if c == 0x0E
    then cmd_set_origin
    else if c == 0x10
    then cmd_media_sync
    else if c == 0x11
    then cmd_change_receiver_layer
    else cmd_unknown

-- The `switch` on the command byte.
unfoldable pub command : World → ℕ → List ℕ → Node → Command → Node × List Effect
command w len bytes n cmd_query_config = query_config w n
command w len bytes n cmd_push_full_config = push_full_config w len bytes n
command w len bytes n cmd_query_running_state = query_running_state w n
command w len bytes n cmd_enter_bootloader = (n, [])
command w len bytes n cmd_ota_begin = ota_begin w len bytes n
command w len bytes n cmd_ota_data = ota_data w len bytes n
command w len bytes n cmd_ota_end = ota_end w n
command w len bytes n cmd_set_role = set_role w len bytes n
command w len bytes n cmd_set_local_layer = set_local_layer w len bytes n
command w len bytes n cmd_set_log = set_log len bytes n
command w len bytes n cmd_set_lr = set_lr w len bytes n
command w len bytes n cmd_ota_data_acked = ota_data_acked w len bytes n
command w len bytes n cmd_set_loss_policy = set_loss_policy len bytes n
command w len bytes n cmd_set_origin = set_origin w len bytes n
command w len bytes n cmd_media_sync = media_sync w len bytes n
command w len bytes n cmd_change_receiver_layer = change_receiver_layer w len bytes n
command w len bytes n cmd_unknown =
    (n, send_error_report error_sysex_parse (get_or bytes 2 0 ∷ []) 1 ∷ [])

-- `handleSysExMessage`; its `length` is a byte.
unfoldable pub handle_sysex_message : World → ℕ → List ℕ → Node → Node × List Effect
handle_sysex_message w len bytes n =
    if ltb len 2
    then (n, [])
    else if not (get_or bytes 0 0 == sysex_start) || not (get_or bytes (len - 1) 0 == sysex_end)
    then (n, [])
    else if ltb len 3 || not (get_or bytes 1 0 == 0x7D)
    then (n, [])
    else if ltb len 4
    then (n, send_error_report error_sysex_parse (take 3 bytes) len ∷ [])
    else command w len bytes n (command_of (get_or bytes 2 0))
