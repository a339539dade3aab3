-- ===== src/Sysex/Tables.antt =====
-- No SysEx command registers a peer: the tables stay, or are cleared.
use nowde.Prelude.{ℕ, ◌≡◌, refl, ◌⊎◌, inl, map, List, arith, get_or}
use nowde.Effects.{Effect}
use nowde.Node.{Node, World, empty_receiver, apply_role, resolve_role}
use nowde.Replies.{send_running_state}
use nowde.Ota.{ota_begin, ota_data, ota_data_acked, ota_end}
use nowde.Commands.{
  query_config, push_full_config, query_running_state, media_sync, change_receiver_layer, set_role,
  set_lr, set_loss_policy, set_origin, set_local_layer, set_log,
}
use nowde.Sysex.{
  Command, command_of, command, cmd_query_config, cmd_push_full_config, cmd_query_running_state,
  cmd_enter_bootloader, cmd_ota_begin, cmd_ota_data, cmd_ota_end, cmd_set_role, cmd_set_local_layer,
  cmd_set_log, cmd_set_lr, cmd_ota_data_acked, cmd_set_loss_policy, cmd_set_origin, cmd_media_sync,
  cmd_change_receiver_layer, cmd_unknown, handle_sysex_message,
}

-- The table of masters stays, and that of slaves stays or is cleared.
abbrev pub KeepsTables : Node → Node → Type 0
KeepsTables n m =
    (m.senders ≡ n.senders)
    × ((m.receivers ≡ n.receivers) ⊎ (m.receivers ≡ map (λ e. empty_receiver) n.receivers))

abbrev Keeps : Node → Node × List Effect → Type 0
Keeps n r = KeepsTables n (r.0)

pub apply_role-KeepsTables : (r : ℕ) (n : Node) → Keeps n (apply_role r n)
unfolding apply_role
apply_role-KeepsTables r n = ground arith

query_config-KeepsTables : (w : World) (n : Node) → Keeps n (query_config w n)
unfolding query_config
query_config-KeepsTables w n = ground arith

push_full_config-KeepsTables :
    (w : World) (len : ℕ) (bytes : List ℕ) (n : Node) → Keeps n (push_full_config w len bytes n)
unfolding push_full_config
push_full_config-KeepsTables w len bytes n = ground arith

query_running_state-KeepsTables : (w : World) (n : Node) → Keeps n (query_running_state w n)
unfolding query_running_state send_running_state
query_running_state-KeepsTables w n = ground arith

set_role-KeepsTables :
    (w : World) (len : ℕ) (bytes : List ℕ) (n : Node) → Keeps n (set_role w len bytes n)
unfolding set_role
set_role-KeepsTables w len bytes n =
    let h =
      apply_role-KeepsTables (resolve_role n.board (get_or bytes 3 0))
        (record n { stored_role = get_or bytes 3 0 }) in
    ground arith

media_sync-KeepsTables :
    (w : World) (len : ℕ) (bytes : List ℕ) (n : Node) → Keeps n (media_sync w len bytes n)
unfolding media_sync
media_sync-KeepsTables w len bytes n = ground arith

change_receiver_layer-KeepsTables :
    (w : World) (len : ℕ) (bytes : List ℕ) (n : Node)
    → Keeps n (change_receiver_layer w len bytes n)
unfolding change_receiver_layer
change_receiver_layer-KeepsTables w len bytes n = ground arith

set_origin-KeepsTables :
    (w : World) (len : ℕ) (bytes : List ℕ) (n : Node) → Keeps n (set_origin w len bytes n)
unfolding set_origin
set_origin-KeepsTables w len bytes n = ground arith

module _ (w : World) (len : ℕ) (bytes : List ℕ) (n : Node) where
  settings-KeepsTables :
      Keeps n (set_local_layer w len bytes n)
      × Keeps n (set_log len bytes n)
      × Keeps n (set_lr w len bytes n)
      × Keeps n (set_loss_policy len bytes n)
  unfolding set_local_layer set_log set_lr set_loss_policy
  settings-KeepsTables = (ground arith, ground arith, ground arith, ground arith)

  ota-KeepsTables :
      Keeps n (ota_begin w len bytes n)
      × Keeps n (ota_data w len bytes n)
      × Keeps n (ota_data_acked w len bytes n)
      × Keeps n (ota_end w n)
  unfolding ota_begin ota_data ota_data_acked ota_end
  ota-KeepsTables = (ground arith, ground arith, ground arith, ground arith)

  command-KeepsTables : (c : Command) → Keeps n (command w len bytes n c)
  unfolding command
  command-KeepsTables cmd_query_config = query_config-KeepsTables w n
  command-KeepsTables cmd_push_full_config = push_full_config-KeepsTables w len bytes n
  command-KeepsTables cmd_query_running_state = query_running_state-KeepsTables w n
  command-KeepsTables cmd_enter_bootloader = (refl, inl refl)
  command-KeepsTables cmd_ota_begin = ota-KeepsTables.0
  command-KeepsTables cmd_ota_data = ota-KeepsTables.1
  command-KeepsTables cmd_ota_end = ota-KeepsTables.3
  command-KeepsTables cmd_set_role = set_role-KeepsTables w len bytes n
  command-KeepsTables cmd_set_local_layer = settings-KeepsTables.0
  command-KeepsTables cmd_set_log = settings-KeepsTables.1
  command-KeepsTables cmd_set_lr = settings-KeepsTables.2
  command-KeepsTables cmd_ota_data_acked = ota-KeepsTables.2
  command-KeepsTables cmd_set_loss_policy = settings-KeepsTables.3
  command-KeepsTables cmd_set_origin = set_origin-KeepsTables w len bytes n
  command-KeepsTables cmd_media_sync = media_sync-KeepsTables w len bytes n
  command-KeepsTables cmd_change_receiver_layer = change_receiver_layer-KeepsTables w len bytes n
  command-KeepsTables cmd_unknown = (refl, inl refl)

  pub handle_sysex_message-KeepsTables : KeepsTables n ((handle_sysex_message w len bytes n).0)
  unfolding handle_sysex_message
  handle_sysex_message-KeepsTables =
      let h = command-KeepsTables (command_of (get_or bytes 2 0)) in ground arith
