-- ===== src/Resync.antt =====
-- main.cpp, `meshResyncTick`: how a slave repairs a stranded mesh clock.
pub mod Steps
pub mod Spell
pub mod Reboots
use nowde.Prelude.{
  ℕ, ◌+◌, Bool, true, false, ◌&&◌, not, List, [], ◌∷◌, ltb, leb, ◌==◌, if◌then◌else◌, u8, sub32,
}
use nowde.Config.{
  sync_coarse, sync_locked, mesh_resync_grace_ms, mesh_max_soft_resets, mesh_reboot_grace_ms,
  mesh_max_auto_reboots,
}
use nowde.Effects.{Effect, Key, put_byte, reset_clock, restart, resyncrb}

-- The statics of the function and `resyncRebootCount`.
pub record Resync : Type 0 where
  pub stuck_since : ℕ
  pub last_action : ℕ
  pub soft_resets : ℕ
  pub gave_up : Bool
  pub reboot_count : ℕ

-- `if (stuckSince == 0)`: the node is coarse for the first time.
abbrev pub note_stuck : ℕ → Resync → Resync
note_stuck now r =
    if r.stuck_since == 0
    then record r { stuck_since = now; last_action = now; soft_resets = 0 }
    else r

-- The node is not coarse: a lock clears the count that the store keeps.
unfoldable pub settle : ℕ → Resync → Resync × List Effect
settle quality r =
    let clear = record r { stuck_since = 0; soft_resets = 0; gave_up = false } in
    if quality == sync_locked && not (r.reboot_count == 0)
    then (record clear { reboot_count = 0 }, put_byte resyncrb 0 ∷ [])
    else (clear, [])

-- The node is coarse since `r.stuck_since`.
unfoldable pub escalate : ℕ → Resync → Resync × List Effect
escalate now r =
    let stuck = sub32 now r.stuck_since in
    if ltb r.soft_resets mesh_max_soft_resets
    then if leb mesh_resync_grace_ms (sub32 now r.last_action)
      then (record r { soft_resets = r.soft_resets + 1; last_action = now }, reset_clock ∷ [])
      else (r, [])
    else if leb mesh_reboot_grace_ms stuck
    then if ltb r.reboot_count mesh_max_auto_reboots
      then (r, put_byte resyncrb (r.reboot_count + 1) ∷ restart ∷ [])
      else (record r { gave_up = true }, [])
    else (r, [])

-- `meshResyncTick`; `quality` is what `nodeSyncQuality` gives.
unfoldable pub mesh_resync_tick : ℕ → ℕ → Resync → Resync × List Effect
mesh_resync_tick now quality r =
    if not (quality == sync_coarse) then settle quality r else escalate now (note_stuck now r)
