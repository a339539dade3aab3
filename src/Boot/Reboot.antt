-- ===== src/Boot/Reboot.antt =====
-- A session between two boots.
use mathlib.Core.Path.{subst}
use nowde.Prelude.{ℕ, ◌≡◌, sym, ◌∙◌, ◌⊎◌, inl, inr, true, List, [], ◌∷◌, length, strnlen, u8, arith}
use nowde.Node.{Node, World, apply_role, resolve_role, load_role, load_flag}
use nowde.Sysex.{handle_sysex_message}
use nowde.Host.Frames.{handle_frames}
use nowde.Boot.{Store, Build, store_all, boot_layer, setup, resolve_boot}
use nowde.Boot.Quiet.{store_all-append}
use nowde.Boot.Kept.{Restores}
use nowde.Boot.Restores.{handle_sysex_message-Restores}

apply_role-settings :
    (r : ℕ) (n : Node)
    → let m = (apply_role r n).0 in
      (m.board ≡ n.board)
      × (m.role ≡ r)
      × (m.lr_enabled ≡ n.lr_enabled)
      × (m.follower.sync.stop_on_link_lost ≡ n.follower.sync.stop_on_link_lost)
      × (m.subscribed_layer ≡ n.subscribed_layer)
unfolding apply_role
apply_role-settings r n = (ground arith, ground arith, ground arith, ground arith, ground arith)

-- What `setup` makes of a store.
setup-lem :
    (w : World) (b : Build) (board : ℕ) (s : Store)
    → let n = (setup w b board true s).0 in
      (n.board ≡ board)
      × (n.role ≡ resolve_role board (load_role s.role))
      × (n.lr_enabled ≡ load_flag b.lr s.lr)
      × (n.follower.sync.stop_on_link_lost ≡ load_flag b.loss s.loss)
      × (n.subscribed_layer ≡ boot_layer b s.layer)
unfolding setup resolve_boot
setup-lem w b board s = apply_role-settings (resolve_role board (load_role s.role)) _

setup-Restores :
    (w : World) (b : Build) (board : ℕ) (s : Store) → Restores b board s (setup w b board true s).0
setup-Restores w b board s =
    let (kept, role, lr, loss, layer) = setup-lem w b board s in
    record { board_kept = kept; role = role; lr = lr; loss = loss; layer = inr layer }

handle_frames-Restores :
    (w : World) (b : Build) (board : ℕ) (frames : List (List ℕ)) (s : Store) (n : Node)
    → Restores b board s n
    → let r = handle_frames w frames n in Restores b board (store_all r.1 s) (r.0)
unfolding handle_frames store_all
handle_frames-Restores w b board [] s n q = q
handle_frames-Restores w b board (f ∷ fs) s n q =
    let (m, es) = handle_sysex_message w (u8 (length f)) f n in
    let (last, more) = handle_frames w fs m in
    let k = handle_sysex_message-Restores b board s w (u8 (length f)) f n q in
    subst (λ t. Restores b board t last) (sym (store_all-append es more s))
      (handle_frames-Restores w b board fs (store_all es s) m k)

-- Whatever SysEx frames a node handles after a boot, known or not, whole or not, the next boot on the
-- same board gives it the role, the LR switch and the loss policy that it had at last, and the layer
-- too unless that was empty; whatever is in the store at first.
pub reboot_keeps_settings :
    (w w' : World) (b : Build) (board : ℕ) (s : Store) (frames : List (List ℕ))
    → let (n, effects) = handle_frames w frames (setup w b board true s).0 in
      let m = (setup w' b board true (store_all effects s)).0 in
      (m.role ≡ n.role)
      × (m.lr_enabled ≡ n.lr_enabled)
      × (m.follower.sync.stop_on_link_lost ≡ n.follower.sync.stop_on_link_lost)
      × ((strnlen n.subscribed_layer 16 ≡ 0) ⊎ (m.subscribed_layer ≡ n.subscribed_layer))
reboot_keeps_settings w w' b board s frames =
    let r = handle_frames w frames (setup w b board true s).0 in
    let k = handle_frames-Restores w b board frames s _ (setup-Restores w b board s) in
    let (_, role, lr, loss, layer) = setup-lem w' b board (store_all r.1 s) in
    (
      role ∙ sym k.role,
      lr ∙ sym k.lr,
      loss ∙ sym k.loss,
      elim k.layer [ inl e ↦ inl e | inr e ↦ inr (layer ∙ sym e) ],
    )
