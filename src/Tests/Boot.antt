-- ===== src/Tests/Boot.antt =====
-- The theorems on boots at concrete inputs.
use nowde.Prelude.{ℕ, ◌≡◌, ◌⊎◌, true, false, List, [], ◌∷◌, strnlen}
use nowde.Tests.{world}
use nowde.Node.{Node}
use nowde.Effects.{Effect}
use nowde.Replies.{frame}
use nowde.Host.Frames.{handle_frames}
use nowde.Boot.{Build, empty_store, store_all, setup}
use nowde.Boot.Reboot.{reboot_keeps_settings}

abbrev atoms3 : Build
atoms3 = record { layer = b'*' ∷ []; lr = false; loss = true }

-- SET_LOCAL_LAYER "L1", SET_ROLE slave, SET_LOSS_POLICY freewheel.
abbrev settings : List (List ℕ)
settings = frame 0x09 (b'L' ∷ b'1' ∷ []) ∷ frame 0x08 (0 ∷ []) ∷ frame 0x0D (0 ∷ []) ∷ []

abbrev session : Node × List Effect
session = handle_frames world settings (setup world atoms3 2 true empty_store).0

abbrev rebooted : Node
rebooted = (setup world atoms3 2 true (store_all session.1 empty_store)).0

reboot_example :
    (rebooted.role ≡ session.0.role)
    × (rebooted.lr_enabled ≡ session.0.lr_enabled)
    × (rebooted.follower.sync.stop_on_link_lost ≡ session.0.follower.sync.stop_on_link_lost)
    × ((strnlen session.0.subscribed_layer 16 ≡ 0)
        ⊎ (rebooted.subscribed_layer ≡ session.0.subscribed_layer))
reboot_example = reboot_keeps_settings world world atoms3 2 empty_store settings
