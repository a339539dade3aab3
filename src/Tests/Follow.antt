-- ===== src/Tests/Follow.antt =====
-- The theorems on following a master at concrete inputs.
use Prim.Native.Nat.{min}
use nowde.Prelude.{
  ℕ, some, ◌+◌, ◌-◌, ◌%◌, ◌^◌, ◌<◌, ◌≤◌, ◌≡◌, refl, ◌⊎◌, true, false, List, [], ◌∷◌, ◌++◌, All,
  arith, length, u32, ◌||◌,
}
use nowde.Config.{mediasync_max_gap}
use nowde.Tests.{mac_a, mac_b, playing, stopped, is_playing, pinned_to_a, follows_nobody, layer_l1}
use nowde.Wire.{media_sync_bytes, media_sync_packet}
use nowde.Midi.{Message, cc, full_frame, start, stop}
use nowde.Sync.{MediaSyncState, initial_sync, origin_accepts, layer_matches, mesh_millis_stable}
use nowde.Sync.Origin.{MayFollow, Follows, origin_accepts_lem, origin_accepts_anchor}
use nowde.Sync.Clock.{mesh_millis_stable_torn_second}
use nowde.Follow.{
  count_gap, compensated_position, time_delta, changed_to_playing, changed_to_stopped,
  first_contact_stopped, follow_packet, process_media_sync_packet,
}
use nowde.Follow.Gaps.{count_gap_lem}
use nowde.Follow.Master.{compensated_position_lem, Tracks, Ignored, process_media_sync_packet_lem}
use nowde.Follow.Host.{IsFollowing, follow_packet-IsFollowing, follow_packet_edges}
use nowde.Task.LinkLoss.{turn, link_lost_stops}
use nowde.Resync.{Resync, mesh_resync_tick}
use nowde.Resync.Steps.{KeepsOff}
use nowde.Resync.Spell.{spell, plan, spell-plan, soft_reset, store_count, reboot}
use nowde.Boot.{Store, empty_store}
use nowde.Node.{load_reboot_count}
use nowde.Resync.Reboots.{restarts, restarts_bounds}

obeys_example :
    let after =
      process_media_sync_packet 6000 520 layer_l1 mac_a (media_sync_bytes playing) follows_nobody in
    (Ignored 6000 layer_l1 mac_a (media_sync_bytes playing) follows_nobody
      × (after ≡ (follows_nobody, [])))
    ⊎ ((27 ≤ length (media_sync_bytes playing))
        × (layer_matches layer_l1 (media_sync_packet (media_sync_bytes playing)).layer ≡ true)
        × MayFollow 6000 mac_a follows_nobody
        × Follows 6000 mac_a follows_nobody after.0
        × Tracks 6000 520 (media_sync_packet (media_sync_bytes playing)) after.0.sync)
obeys_example =
    process_media_sync_packet_lem 6000 520 layer_l1 mac_a (media_sync_bytes playing) follows_nobody

locked_example :
    let after = origin_accepts 6000 mac_b pinned_to_a in
    ((after.1 ≡ true) × MayFollow 6000 mac_b pinned_to_a × Follows 6000 mac_b pinned_to_a after.0)
    ⊎ ((after.1 ≡ false) × (MayFollow 6000 mac_b pinned_to_a → ⊥) × (after.0 ≡ pinned_to_a))
locked_example = origin_accepts_lem 6000 mac_b pinned_to_a

anchor_example :
    ((origin_accepts 6000 mac_b follows_nobody).0.sync.have_seq ≡ false)
    ⊎ ((false ≡ true)
        × (follows_nobody.lock.mac ≡ mac_b)
        × ((origin_accepts 6000 mac_b follows_nobody).0.sync ≡ follows_nobody.sync))
unfolding origin_accepts
anchor_example = origin_accepts_anchor 6000 mac_b follows_nobody refl

-- Frames 40 to 42 are lost.
gap_example :
    let t = count_gap 31 43 is_playing in
    (3 ≤ mediasync_max_gap → t.sync_gaps ≡ min (0 + 3) 65535)
    × (mediasync_max_gap < 3 → t.sync_gaps ≡ 0)
    × (t.last_seq ≡ 43)
    × (t.have_seq ≡ true)
gap_example = count_gap_lem is_playing 3 43 refl (omega arith) (omega arith) (omega arith) refl

compensated_example :
    (compensated_position 520 playing ≡ 1000)
    ⊎ ((age : ℕ) × (compensated_position 520 playing ≡ u32 (1000 + age))
        × (0 < age)
        × (age ≤ 200)
        × (playing.state ≡ 1)
        × (age ≡ time_delta 520 playing))
compensated_example = compensated_position_lem 520 playing

edges_example :
    let messages = (follow_packet 6000 520 31 stopped is_playing).1 in
    (changed_to_playing stopped is_playing ≡ true
      → (before : List Message) × (messages
          ≡ before ++ full_frame (compensated_position 520 stopped) ∷ start ∷ []))
    × (changed_to_stopped stopped is_playing || first_contact_stopped stopped is_playing ≡ true
        → changed_to_playing stopped is_playing ≡ false
        → (before : List Message) × (messages ≡ before ++ cc 100 0 ∷ stop ∷ []))
edges_example = follow_packet_edges 6000 520 31 stopped is_playing

messages_example : All IsFollowing (follow_packet 6000 520 31 playing initial_sync).1
messages_example = follow_packet-IsFollowing 6000 520 31 playing initial_sync

torn_example :
    mesh_millis_stable 5000000 ((5000000 + 2 ^ 32 - 4294967) % 2 ^ 32) 0 0 0
    ≡ (5000000 + 2 ^ 32 - 4294967) % 2 ^ 32
torn_example =
    mesh_millis_stable_torn_second 5000000 4294967 0 0 0 (omega arith) (omega arith) (omega arith)

loss_stops_example :
    ((turn 15001 is_playing).1 ≡ cc 100 0 ∷ stop ∷ [])
    × ((turn 15040 (turn 15001 is_playing).0).1 ≡ [])
loss_stops_example = link_lost_stops 15001 15040 is_playing (refl, refl, omega arith) refl

abbrev freewheeling : MediaSyncState
freewheeling = record is_playing { stop_on_link_lost = false }

-- Coarse since 1 s, both soft resets spent.
abbrev stranded : Resync
stranded = record {
  stuck_since = 1000;
  last_action = 31000;
  soft_resets = 2;
  gave_up = false;
  reboot_count = 1;
}

-- The store that goes with it.
abbrev once_rebooted : Store
once_rebooted = record empty_store { resyncrb = some 1 }

abbrev rested : Resync
rested = record stranded { stuck_since = 0 }

-- Two soft resets, then the second restart.
abbrev coarse_ticks : List ℕ
coarse_ticks = 9000 ∷ 16000 ∷ 20000 ∷ 31000 ∷ 40000 ∷ 61000 ∷ 61010 ∷ []

heal_example :
    (spell rested (1000 ∷ coarse_ticks) ≡ plan 1 1000 2 1000 coarse_ticks)
    × All KeepsOff (mesh_resync_tick 900 2 stranded).1
    × ((mesh_resync_tick 900 2 stranded).0.stuck_since ≡ 0)
heal_example =
    spell-plan 900 2 stranded rested 1000 coarse_ticks (omega arith) refl (omega arith)
      (omega arith) (omega arith)

healed :
    plan 1 1000 2 1000 coarse_ticks
    ≡ soft_reset 16000 ∷ soft_reset 31000 ∷ store_count 2 ∷ reboot 61000 ∷ []
unfolding plan
healed = refl

restarts_example : restarts stranded once_rebooted ((61000, 1) ∷ (500, 1) ∷ []) + 1 ≤ 2
unfolding load_reboot_count
restarts_example =
    restarts_bounds stranded once_rebooted ((61000, 1) ∷ (500, 1) ∷ [])
      ((λ e. omega (arith, e)), ((λ e. omega (arith, e)), tt)) refl (omega arith)
