-- ===== src/Sysex/Roles.antt =====
-- A slave never becomes a master by what it is told, but by SET_ROLE alone.
use nowde.Prelude.{ℕ, ◌≡◌, false, List, ltb, arith, if_both, get_or}
use nowde.Config.{role_slave}
use nowde.Effects.{Effect}
use nowde.Node.{Node, World, apply_role, resolve_role}
use nowde.Replies.{send_running_state}
use nowde.Ota.{ota_begin, ota_data, ota_data_acked, ota_end}
use nowde.Commands.{
  query_config, push_full_config, query_running_state, media_sync, change_receiver_layer, set_role,
  set_lr, set_loss_policy, set_origin, set_local_layer, set_log,
}
use nowde.Sysex.{
  Command, command_of, command, cmd_query_config, cmd_push_full_config, cmd_query_running_state,
  cmd_enter_bootloader, cmd_ota_begin, cmd_ota_data, cmd_ota_end, cmd_set_role, cmd_set_local_layer,
  cmd_set_log, cmd_set_lr, cmd_ota_data_acked, cmd_set_loss_policy, cmd_set_origin, cmd_media_sync,
  cmd_change_receiver_layer, cmd_unknown, handle_sysex_message,
}

-- A node whose role is slave does not send beacons.
abbrev pub SlaveIsQuiet : Node → Type 0
SlaveIsQuiet n = n.role ≡ role_slave → n.sender_mode ≡ false

abbrev Quiet : Node × List Effect → Type 0
Quiet r = SlaveIsQuiet (r.0)

pub apply_role-SlaveIsQuiet : (r : ℕ) (n : Node) → SlaveIsQuiet n → Quiet (apply_role r n)
unfolding apply_role
apply_role-SlaveIsQuiet r n q = ground arith

query_config-SlaveIsQuiet : (w : World) (n : Node) → SlaveIsQuiet n → Quiet (query_config w n)
unfolding query_config
query_config-SlaveIsQuiet w n q = ground arith

push_full_config-SlaveIsQuiet :
    (w : World) (len : ℕ) (bytes : List ℕ) (n : Node)
    → SlaveIsQuiet n
    → Quiet (push_full_config w len bytes n)
unfolding push_full_config
push_full_config-SlaveIsQuiet w len bytes n q = ground arith

query_running_state-SlaveIsQuiet :
    (w : World) (n : Node) → SlaveIsQuiet n → Quiet (query_running_state w n)
unfolding query_running_state send_running_state
query_running_state-SlaveIsQuiet w n q = ground arith

set_role-SlaveIsQuiet :
    (w : World) (len : ℕ) (bytes : List ℕ) (n : Node)
    → SlaveIsQuiet n
    → Quiet (set_role w len bytes n)
unfolding set_role
set_role-SlaveIsQuiet w len bytes n q = if_both Quiet (ltb len 5) _ _ q (
    if_both Quiet _ _ _ q (
      apply_role-SlaveIsQuiet (resolve_role n.board (get_or bytes 3 0))
        (record n { stored_role = get_or bytes 3 0 }) q))

media_sync-SlaveIsQuiet :
    (w : World) (len : ℕ) (bytes : List ℕ) (n : Node)
    → SlaveIsQuiet n
    → Quiet (media_sync w len bytes n)
unfolding media_sync
media_sync-SlaveIsQuiet w len bytes n q = ground arith

change_receiver_layer-SlaveIsQuiet :
    (w : World) (len : ℕ) (bytes : List ℕ) (n : Node)
    → SlaveIsQuiet n
    → Quiet (change_receiver_layer w len bytes n)
unfolding change_receiver_layer
change_receiver_layer-SlaveIsQuiet w len bytes n q = ground arith

set_origin-SlaveIsQuiet :
    (w : World) (len : ℕ) (bytes : List ℕ) (n : Node)
    → SlaveIsQuiet n
    → Quiet (set_origin w len bytes n)
unfolding set_origin
set_origin-SlaveIsQuiet w len bytes n q = ground arith

module _ (w : World) (len : ℕ) (bytes : List ℕ) (n : Node) (q : SlaveIsQuiet n) where
  settings-SlaveIsQuiet :
      Quiet (set_local_layer w len bytes n)
      × Quiet (set_log len bytes n)
      × Quiet (set_lr w len bytes n)
      × Quiet (set_loss_policy len bytes n)
  unfolding set_local_layer set_log set_lr set_loss_policy
  settings-SlaveIsQuiet = (ground arith, ground arith, ground arith, ground arith)

  ota-SlaveIsQuiet :
      Quiet (ota_begin w len bytes n)
      × Quiet (ota_data w len bytes n)
      × Quiet (ota_data_acked w len bytes n)
      × Quiet (ota_end w n)
  unfolding ota_begin ota_data ota_data_acked ota_end
  ota-SlaveIsQuiet = (ground arith, ground arith, ground arith, ground arith)

  command-SlaveIsQuiet : (c : Command) → Quiet (command w len bytes n c)
  unfolding command
  command-SlaveIsQuiet cmd_query_config = query_config-SlaveIsQuiet w n q
  command-SlaveIsQuiet cmd_push_full_config = push_full_config-SlaveIsQuiet w len bytes n q
  command-SlaveIsQuiet cmd_query_running_state = query_running_state-SlaveIsQuiet w n q
  command-SlaveIsQuiet cmd_enter_bootloader = q
  command-SlaveIsQuiet cmd_ota_begin = ota-SlaveIsQuiet.0
  command-SlaveIsQuiet cmd_ota_data = ota-SlaveIsQuiet.1
  command-SlaveIsQuiet cmd_ota_end = ota-SlaveIsQuiet.3
  command-SlaveIsQuiet cmd_set_role = set_role-SlaveIsQuiet w len bytes n q
  command-SlaveIsQuiet cmd_set_local_layer = settings-SlaveIsQuiet.0
  command-SlaveIsQuiet cmd_set_log = settings-SlaveIsQuiet.1
  command-SlaveIsQuiet cmd_set_lr = settings-SlaveIsQuiet.2
  command-SlaveIsQuiet cmd_ota_data_acked = ota-SlaveIsQuiet.2
  command-SlaveIsQuiet cmd_set_loss_policy = settings-SlaveIsQuiet.3
  command-SlaveIsQuiet cmd_set_origin = set_origin-SlaveIsQuiet w len bytes n q
  command-SlaveIsQuiet cmd_media_sync = media_sync-SlaveIsQuiet w len bytes n q
  command-SlaveIsQuiet cmd_change_receiver_layer =
      change_receiver_layer-SlaveIsQuiet w len bytes n q
  command-SlaveIsQuiet cmd_unknown = q

  -- After any SysEx frame, of a known command or not, whole or not, a node whose role is slave is not
  -- in sender mode, provided that this was so before.
  pub handle_sysex_message-SlaveIsQuiet : SlaveIsQuiet (handle_sysex_message w len bytes n).0
  unfolding handle_sysex_message
  handle_sysex_message-SlaveIsQuiet =
      let h = command-SlaveIsQuiet (command_of (get_or bytes 2 0)) in ground arith
