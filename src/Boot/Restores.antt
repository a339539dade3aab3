-- ===== src/Boot/Restores.antt =====
-- A boot gives back what a node was set to.
use nowde.Prelude.{ℕ, List, [], ◌∷◌, get_or, take, ltb, if_both}
use nowde.Config.{error_sysex_parse}
use nowde.Node.{Node, World}
use nowde.Sysex.{
  Command, command_of, command, cmd_query_config, cmd_push_full_config, cmd_query_running_state,
  cmd_enter_bootloader, cmd_ota_begin, cmd_ota_data, cmd_ota_end, cmd_set_role, cmd_set_local_layer,
  cmd_set_log, cmd_set_lr, cmd_ota_data_acked, cmd_set_loss_policy, cmd_set_origin, cmd_media_sync,
  cmd_change_receiver_layer, cmd_unknown, handle_sysex_message,
}
use nowde.Boot.{Store, Build, store_all}
use nowde.Boot.Kept.{
  Restores, Kept, nothing-Restores, error-Restores, query_config-Restores,
  push_full_config-Restores, media_sync-Restores, set_log-Restores, ota-Restores,
  query_running_state-Restores, set_origin-Restores,
}
use nowde.Boot.Changes.{
  set_lr-Restores, set_loss_policy-Restores, set_local_layer-Restores,
  change_receiver_layer-Restores, set_role-Restores,
}

module _ (b : Build) (board : ℕ) (s : Store) (w : World) (len : ℕ) (bytes : List ℕ) (n : Node)
    (q : Restores b board s n) where
  command-Restores : (c : Command) → Kept b board s (command w len bytes n c)
  unfolding command
  command-Restores cmd_query_config = query_config-Restores b board s w len bytes n q
  command-Restores cmd_push_full_config = push_full_config-Restores b board s w len bytes n q
  command-Restores cmd_query_running_state = query_running_state-Restores b board s w len bytes n q
  command-Restores cmd_enter_bootloader = nothing-Restores b board s w len bytes n q
  command-Restores cmd_ota_begin = (ota-Restores b board s w len bytes n q).0
  command-Restores cmd_ota_data = (ota-Restores b board s w len bytes n q).1
  command-Restores cmd_ota_end = (ota-Restores b board s w len bytes n q).3
  command-Restores cmd_set_role = set_role-Restores b board s w len bytes n q
  command-Restores cmd_set_local_layer = set_local_layer-Restores b board s w len bytes n q
  command-Restores cmd_set_log = set_log-Restores b board s w len bytes n q
  command-Restores cmd_set_lr = set_lr-Restores b board s w len bytes n q
  command-Restores cmd_ota_data_acked = (ota-Restores b board s w len bytes n q).2
  command-Restores cmd_set_loss_policy = set_loss_policy-Restores b board s w len bytes n q
  command-Restores cmd_set_origin = set_origin-Restores b board s w len bytes n q
  command-Restores cmd_media_sync = media_sync-Restores b board s w len bytes n q
  command-Restores cmd_change_receiver_layer =
      change_receiver_layer-Restores b board s w len bytes n q
  command-Restores cmd_unknown =
      error-Restores b board s w len bytes n q error_sysex_parse (get_or bytes 2 0 ∷ []) 1

  -- Whatever SysEx frame a node handles, a boot with the store as the handler leaves it gives back
  -- the role, the LR switch, the loss policy and, if it is not empty, the layer that the node then
  -- has, provided that this was so before.
  pub handle_sysex_message-Restores :
      let r = handle_sysex_message w len bytes n in Restores b board (store_all r.1 s) (r.0)
  unfolding handle_sysex_message Kept
  handle_sysex_message-Restores =
      if_both (Kept b board s) (ltb len 2) _ _ (nothing-Restores b board s w len bytes n q) (
        if_both (Kept b board s) _ _ _ (nothing-Restores b board s w len bytes n q) (
          if_both (Kept b board s) _ _ _ (nothing-Restores b board s w len bytes n q) (
            if_both (Kept b board s) (ltb len 4) _ _
              (error-Restores b board s w len bytes n q error_sysex_parse (take 3 bytes) len)
              (command-Restores (command_of (get_or bytes 2 0))))))
