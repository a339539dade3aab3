-- ===== src/Settings.antt =====
-- sysex.cpp and storage.cpp together: what SET_ROLE, SET_LR and SET_LOSS_POLICY set, the node still
-- has after a boot.
use nowde.Prelude.{ℕ, ◌≤◌, ◌≡◌, ◌⊎◌, Bool, Option, none, some, List, ◌∷◌, get_or, arith}
use nowde.Config.{role_slave, role_master, role_auto}
use nowde.Effects.{Effect, put_byte}
use nowde.Node.{Node, World, apply_role, resolve_role, load_role, load_flag}
use nowde.Commands.{set_role, set_lr, set_loss_policy}

-- The byte that a handler stores first under a key.
abbrev pub stored : Node × List Effect → Option ℕ
stored (n, put_byte k v ∷ effects) = some v
stored (n, _) = none

-- SET_ROLE with a slave's, a master's or the AUTO byte.
abbrev pub IsRole : ℕ → Type 0
IsRole r = (r ≡ role_slave) ⊎ (r ≡ role_master) ⊎ (r ≡ role_auto)

-- After a SET_ROLE of at least five bytes with a slave's, a master's or the AUTO byte, the role
-- taken at once is the one that `setup` resolves from the store at the next boot.
pub set_role_survives :
    (w : World) (len : ℕ) (bytes : List ℕ) (n : Node)
    → 5 ≤ len
    → IsRole (get_or bytes 3 0)
    → (set_role w len bytes n).0.role
      ≡ resolve_role n.board (load_role (stored (set_role w len bytes n)))
unfolding set_role resolve_role load_role apply_role
set_role_survives w len bytes n l r = ground arith

-- After a SET_LR or SET_LOSS_POLICY of at least five bytes with 0 or 1, the switch that the node has
-- is the one that it loads at the next boot, whatever the build's default.
pub switches_survive :
    (w : World) (len : ℕ) (bytes : List ℕ) (n : Node) (default : Bool)
    → 5 ≤ len
    → get_or bytes 3 0 ≤ 1
    → ((set_lr w len bytes n).0.lr_enabled ≡ load_flag default (stored (set_lr w len bytes n)))
      × ((set_loss_policy len bytes n).0.follower.sync.stop_on_link_lost
          ≡ load_flag default (stored (set_loss_policy len bytes n)))
unfolding set_lr set_loss_policy load_flag
switches_survive w len bytes n default l b = (ground arith, ground arith)
