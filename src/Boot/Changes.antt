-- ===== src/Boot/Changes.antt =====
-- The SysEx handlers that change what a node was set to.
use mathlib.Core.Path.{subst}
use nowde.Prelude.{
  ℕ, ◌≡◌, refl, ap, ◌∙◌, sym, false, not, ◌&&◌, some, List, [], ◌∷◌, ◌++◌, get_or, ltb, leb, ◌==◌,
  arith, if_both, if_cases,
}
use nowde.Config.{role_slave, role_master, role_auto}
use nowde.Effects.{Effect, put_layer}
use nowde.Tables.{layer_buffer}
use nowde.Node.{Node, World, apply_role, resolve_role, load_role, load_flag}
use nowde.Replies.{send_hello, send_config_state, send_error_report}
use nowde.Commands.{
  send_receiver_info, change_receiver_layer, short_layer, is_switch, set_role, set_lr,
  set_loss_policy, set_local_layer,
}
use nowde.Boot.{Store, Build, save_byte, save_layer, store_effect, store_all}
use nowde.Boot.Kept.{Restores, Kept, untouched, nothing-Restores}
use nowde.Boot.Quiet.{
  store_all-append, send_receiver_info-store, config_state-store, told-store, apply_role-store,
  pass_layer-store,
}
use nowde.Boot.Layer.{boot_layer-c_string}

-- The role that a node takes, with a role byte that SET_ROLE accepts.
apply_role-fields :
    (r : ℕ) (n : Node)
    → not (r == role_slave) && (not (r == role_master) && not (r == role_auto)) ≡ false
    → let m = (apply_role (resolve_role n.board r) (record n { stored_role = r })).0 in
      (m.role ≡ resolve_role n.board (load_role (some r)))
      × (m.board ≡ n.board)
      × (m.lr_enabled ≡ n.lr_enabled)
      × (m.follower.sync.stop_on_link_lost ≡ n.follower.sync.stop_on_link_lost)
      × (m.subscribed_layer ≡ n.subscribed_layer)
unfolding apply_role resolve_role load_role
apply_role-fields r n e = (ground arith, ground arith, ground arith, ground arith, ground arith)

module _ (b : Build) (board : ℕ) (s : Store) (w : World) (len : ℕ) (bytes : List ℕ) (n : Node)
    (q : Restores b board s n) where
  pub set_lr-Restores : Kept b board s (set_lr w len bytes n)
  unfolding set_lr store_all store_effect save_byte send_hello send_error_report load_flag Kept
  set_lr-Restores =
      if_cases (Kept b board s) (is_switch len bytes) _ _
        (λ e. record {
          board_kept = q.board_kept;
          role = q.role;
          lr = ground arith;
          loss = q.loss;
          layer = q.layer;
        })
        λ e. q

  pub set_loss_policy-Restores : Kept b board s (set_loss_policy len bytes n)
  unfolding set_loss_policy store_all store_effect save_byte send_config_state send_error_report
      load_flag Kept
  set_loss_policy-Restores =
      if_cases (Kept b board s) (is_switch len bytes) _ _
        (λ e. record {
          board_kept = q.board_kept;
          role = q.role;
          lr = q.lr;
          loss = ground arith;
          layer = q.layer;
        })
        λ e. q

  -- A layer of a short frame, saved and told.
  pub named-Restores :
      (x : List ℕ) (es : List Effect)
      → ((t : Store) → store_all es t ≡ t)
      → Kept b board s
          (record n { subscribed_layer = layer_buffer x }, put_layer (layer_buffer x) ∷ es)
  unfolding Kept store_all store_effect
  named-Restores x es e =
      let saved = save_layer (layer_buffer x) s in
      subst (λ t. Restores b board t (record n { subscribed_layer = layer_buffer x }))
        (sym (e saved))
        (record {
          board_kept = q.board_kept;
          role = q.role;
          lr = q.lr;
          loss = q.loss;
          layer = boot_layer-c_string b x;
        })

  pub set_local_layer-Restores : Kept b board s (set_local_layer w len bytes n)
  unfolding set_local_layer send_error_report Kept store_all store_effect
  set_local_layer-Restores =
      let m = record n { subscribed_layer = short_layer len bytes } in
      if_both (Kept b board s) (ltb len 5) _ _ q (
        named-Restores _ (send_receiver_info w m ++ (send_config_state m ∷ [])) λ t.
          store_all-append (send_receiver_info w m) (send_config_state m ∷ []) t
          ∙ config_state-store m _
          ∙ send_receiver_info-store w m t)

  pub change_receiver_layer-Restores : Kept b board s (change_receiver_layer w len bytes n)
  unfolding change_receiver_layer Kept
  change_receiver_layer-Restores =
      let m = record n { subscribed_layer = short_layer len bytes } in
      if_both (Kept b board s) (n.sender_mode && leb 29 len) _ _
        (untouched b board s n _ q (pass_layer-store w _ _ _ s) (refl, refl, refl, refl, refl))
        (if_both (Kept b board s) (n.receiver_mode && leb 4 len) _ _
          (named-Restores _ (send_receiver_info w m) (send_receiver_info-store w m))
          (nothing-Restores b board s w len bytes n q))

  pub set_role-Restores : Kept b board s (set_role w len bytes n)
  unfolding set_role send_error_report Kept store_all store_effect save_byte
  set_role-Restores =
      let r = get_or bytes 3 0 in
      let after = apply_role (resolve_role n.board r) (record n { stored_role = r }) in
      let m = after.0 in
      if_both (Kept b board s) (ltb len 5) _ _ q (
        if_cases (Kept b board s)
          (not (r == role_slave) && (not (r == role_master) && not (r == role_auto))) _ _ (λ e. q)
          λ e.
            let (role, same, lr, loss, layer) = apply_role-fields r n e in
            subst (λ t. Restores b board t m)
              (sym (
                store_all-append after.1 (send_hello w m ∷ send_config_state m ∷ [])
                  (record s { role = some r })
                ∙ told-store w m _
                ∙ apply_role-store (resolve_role n.board r) (record n { stored_role = r })
                    (record s { role = some r })))
              (record {
                board_kept = same ∙ q.board_kept;
                role = role ∙ ap (λ k. resolve_role k (load_role (some r))) q.board_kept;
                lr = lr ∙ q.lr;
                loss = loss ∙ q.loss;
                layer = rw layer q.layer;
              }))
