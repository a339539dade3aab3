-- ===== src/Boot/Kept.antt =====
-- The SysEx handlers that leave what a node was set to as it is.
use nowde.Prelude.{
  ℕ, ◌≡◌, ap, ◌∙◌, sym, ◌⊎◌, not, ◌&&◌, List, [], ◌∷◌, strnlen, ltb, leb, arith, if_both,
}
use nowde.Sync.{origin_release}
use nowde.Effects.{Effect}
use nowde.Node.{Node, World, resolve_role, load_role, load_flag}
use nowde.Replies.{send_hello, send_config_state, send_running_state, send_error_report}
use nowde.Ota.{ota_begin, ota_data, ota_data_acked, ota_end}
use nowde.Commands.{
  query_config, push_full_config, query_running_state, media_sync, set_origin, set_log,
}
use nowde.Boot.{Store, Build, store_effect, store_all, boot_layer}
use nowde.Boot.Quiet.{query_running_state-store}

-- What the node was set to is what a boot with this store gives it; a layer of no characters comes
-- back as the default.
pub record Restores (b : Build) (board : ℕ) (s : Store) (n : Node) : Type 0 where
  pub board_kept : n.board ≡ board
  pub role : n.role ≡ resolve_role board (load_role s.role)
  pub lr : n.lr_enabled ≡ load_flag b.lr s.lr
  pub loss : n.follower.sync.stop_on_link_lost ≡ load_flag b.loss s.loss
  pub layer : (strnlen n.subscribed_layer 16 ≡ 0) ⊎ (n.subscribed_layer ≡ boot_layer b s.layer)

module _ (b : Build) (board : ℕ) (s : Store) where
  unfoldable pub Kept : Node × List Effect → Type 0
  Kept r = Restores b board (store_all r.1 s) (r.0)

  -- A handler that changes none of the settings and does not touch the store.
  pub untouched :
      (n : Node) (r : Node × List Effect)
      → Restores b board s n
      → store_all r.1 s ≡ s
      → (r.0.role ≡ n.role)
        × (r.0.board ≡ n.board)
        × (r.0.lr_enabled ≡ n.lr_enabled)
        × (r.0.follower.sync.stop_on_link_lost ≡ n.follower.sync.stop_on_link_lost)
        × (r.0.subscribed_layer ≡ n.subscribed_layer)
      → Kept r
  unfolding Kept
  untouched n r q e (ro, bo, l, st, la) = record {
    board_kept = bo ∙ q.board_kept;
    role = ro ∙ q.role ∙ ap (λ t. resolve_role board (load_role t.role)) (sym e);
    lr = l ∙ q.lr ∙ ap (λ t. load_flag b.lr t.lr) (sym e);
    loss = st ∙ q.loss ∙ ap (λ t. load_flag b.loss t.loss) (sym e);
    layer = rw (la, e) q.layer;
  }

  module _ (w : World) (len : ℕ) (bytes : List ℕ) (n : Node) (q : Restores b board s n) where
    pub nothing-Restores : Kept (n, [])
    unfolding Kept store_all
    nothing-Restores = q

    pub error-Restores :
        (code : ℕ) (context : List ℕ) (k : ℕ) → Kept (n, send_error_report code context k ∷ [])
    unfolding Kept store_all store_effect send_error_report
    error-Restores code context k = q

    pub query_config-Restores : Kept (query_config w n)
    unfolding query_config store_all store_effect send_hello send_config_state Kept
    query_config-Restores = record {
      board_kept = q.board_kept;
      role = q.role;
      lr = q.lr;
      loss = q.loss;
      layer = q.layer;
    }

    pub push_full_config-Restores : Kept (push_full_config w len bytes n)
    unfolding push_full_config store_all store_effect send_config_state send_error_report Kept
    push_full_config-Restores = if_both Kept (ltb len 6) _ _ q (record {
      board_kept = q.board_kept;
      role = q.role;
      lr = q.lr;
      loss = q.loss;
      layer = q.layer;
    })

    pub media_sync-Restores : Kept (media_sync w len bytes n)
    unfolding media_sync store_all store_effect Kept
    media_sync-Restores = if_both Kept (not (n.sender_mode && leb 27 len)) _ _ q (
        if_both Kept n.rf_simulation _ _
          (record {
            board_kept = q.board_kept;
            role = q.role;
            lr = q.lr;
            loss = q.loss;
            layer = q.layer;
          })
          (record {
            board_kept = q.board_kept;
            role = q.role;
            lr = q.lr;
            loss = q.loss;
            layer = q.layer;
          }))

    pub set_log-Restores : Kept (set_log len bytes n)
    unfolding set_log store_all store_effect send_error_report Kept
    set_log-Restores = if_both Kept (ltb len 5) _ _ q q

    pub ota-Restores :
        Kept (ota_begin w len bytes n)
        × Kept (ota_data w len bytes n)
        × Kept (ota_data_acked w len bytes n)
        × Kept (ota_end w n)
    unfolding ota_begin ota_data ota_data_acked ota_end store_all store_effect send_error_report
    ota-Restores = (
      untouched n _ q (ground arith) (ground arith),
      untouched n _ q (ground arith) (ground arith),
      untouched n _ q (ground arith) (ground arith),
      untouched n _ q (ground arith) (ground arith),
    )

    pub query_running_state-Restores : Kept (query_running_state w n)
    unfolding query_running_state store_all store_effect send_hello send_running_state
    query_running_state-Restores = untouched n _ q (query_running_state-store w n s) (ground arith)

    pub set_origin-Restores : Kept (set_origin w len bytes n)
    unfolding set_origin origin_release store_all store_effect send_config_state send_error_report
    set_origin-Restores = untouched n _ q (ground arith) (ground arith)
