-- ===== src/Tests/Panel.antt =====
-- The theorems on the LED and the display, at concrete inputs.
use nowde.Prelude.{◌<◌, ◌≡◌, refl, ◌⊎◌, true, false, arith}
use nowde.Tests.{slave, master, is_playing, follows_nobody}
use nowde.Config.{sync_locked}
use nowde.Sync.{host_linked, master_relay_playing, node_sync_quality}
use nowde.Tables.{count_connected_receivers, count_locked_receivers, count_active_senders}
use nowde.Node.{Node}
use nowde.Panel.{synced, status_color, master_colour}
use nowde.Panel.Colour.{green, Drives, Plays, status_color-green, quality-green}

-- A master that relays since 5 s to one locked slave.
abbrev driving : Node
driving = record master {
  master_relay = record { index = 7; position_ms = 1000; state = 1; updated_at = 5000 };
}

driving-green : (status_color 6000 5900 synced driving).0 ≡ green
unfolding status_color master_colour host_linked master_relay_playing count_connected_receivers
    count_locked_receivers
driving-green = refl

colour_example :
    (driving.ota.in_progress ≡ false) × (Drives 6000 5900 driving ⊎ Plays synced driving)
colour_example = status_color-green 6000 5900 synced driving driving-green

abbrev following : Node
following = record slave { follower = record follows_nobody { sync = is_playing } }

following-locked : node_sync_quality following.role 6000 true following.follower.sync ≡ sync_locked
unfolding node_sync_quality
following-locked = refl

following-hears : 0 < count_active_senders following.senders
unfolding count_active_senders
following-hears = omega arith

led_example : status_color 6000 0 synced following ≡ (green, false)
led_example =
    quality-green 6000 0 following (λ e. omega (arith, e)) refl following-hears following-locked
