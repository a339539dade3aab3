-- ===== src/Resync/Reboots.antt =====
-- How often the self-heal may restart the chip.
use nowde.Prelude.{
  ℕ, ◌+◌, ◌≤◌, ◌≡◌, ◌≢◌, ◌⊎◌, inl, inr, false, List, [], ◌∷◌, All, arith, if_both, not, ◌==◌,
}
use nowde.Config.{sync_locked, mesh_max_auto_reboots}
use nowde.Effects.{Effect, restart}
use nowde.Node.{load_reboot_count}
use nowde.Boot.{Store, store_effect, save_byte}
use nowde.Resync.{Resync, settle, escalate, mesh_resync_tick}

-- The statics after a boot; the count is read from the store.
abbrev pub booted : Store → Resync
booted store = record {
  stuck_since = 0;
  last_action = 0;
  soft_resets = 0;
  gave_up = false;
  reboot_count = load_reboot_count store.resyncrb;
}

-- The effects of a tick, in their order, on the store and the chip: a restart boots it from the store
-- as it is then, and nothing after it is done. At the end the number of restarts, one or none.
abbrev carry_out : List Effect → Store → Resync → Resync × Store × ℕ
carry_out [] store s = (s, store, 0)
carry_out (restart ∷ effects) store s = (booted store, store, 1)
carry_out (e ∷ effects) store s = carry_out effects (store_effect e store) s

-- The restarts in a run of ticks, each with its time and the quality that the node has then, over
-- the boots that they cause.
unfoldable pub restarts : Resync → Store → List (ℕ × ℕ) → ℕ
restarts r store [] = 0
restarts r store ((now, quality) ∷ ticks) =
    let (s, effects) = mesh_resync_tick now quality r in
    let (t, kept, k) = carry_out effects store s in k + restarts t kept ticks

-- A tick without a lock.
abbrev pub IsUnlocked : ℕ × ℕ → Type 0
IsUnlocked (now, quality) = quality ≢ sync_locked

-- The count in the store is the count in memory.
abbrev pub IsStored : Resync → Store → Type 0
IsStored r store = load_reboot_count store.resyncrb ≡ r.reboot_count

-- What a tick adds to the restarts, the count that is left pays for.
abbrev Pays : Resync → Store → Resync × List Effect → Type 0
Pays r store (s, effects) =
    let (t, kept, k) = carry_out effects store s in
    (k + r.reboot_count ≡ t.reboot_count)
    × ((k ≡ 0) ⊎ (t.reboot_count ≤ mesh_max_auto_reboots))
    × IsStored t kept

settle-Pays :
    (quality : ℕ) (r : Resync) (store : Store)
    → quality ≢ sync_locked
    → IsStored r store
    → Pays r store (settle quality r)
unfolding settle
settle-Pays quality r store q e = ground arith

escalate-Pays :
    (now : ℕ) (r : Resync) (store : Store) → IsStored r store → Pays r store (escalate now r)
unfolding escalate store_effect save_byte load_reboot_count
escalate-Pays now r store e = ground arith

tick-Pays :
    (now quality : ℕ) (r : Resync) (store : Store)
    → quality ≢ sync_locked
    → IsStored r store
    → Pays r store (mesh_resync_tick now quality r)
unfolding mesh_resync_tick
tick-Pays now quality r store q e =
    if_both (Pays r store) (not (quality == 1)) _ _ (settle-Pays quality r store q e) (
      if_both (λ s. Pays r store (escalate now s)) (r.stuck_since == 0) _ _
        (escalate-Pays now (record r { stuck_since = now; last_action = now; soft_resets = 0 })
          store e)
        (escalate-Pays now r store e))

-- Over any run of ticks in which the node never locks, reboots included, of which each boots from the
-- store as it is at the restart: the restarts by the self-heal and the count in the store before, if
-- that is at most two and the count in memory is the same, make two together at most.
pub restarts_bounds :
    (r : Resync) (store : Store) (ticks : List (ℕ × ℕ))
    → All IsUnlocked ticks
    → IsStored r store
    → load_reboot_count store.resyncrb ≤ mesh_max_auto_reboots
    → restarts r store ticks + load_reboot_count store.resyncrb ≤ mesh_max_auto_reboots
unfolding restarts
restarts_bounds r store [] u e b = omega (arith, b)
restarts_bounds r store ((now, quality) ∷ ticks) u e b =
    let (s, effects) = mesh_resync_tick now quality r in
    let (t, kept, k) = carry_out effects store s in
    let (sum, room, same) = tick-Pays now quality r store u.0 e in
    let small : t.reboot_count ≤ mesh_max_auto_reboots = elim room [
      | inl z ↦ omega (arith, z, sum, b, e)
      | inr l ↦ l
    ] in
    let rest = restarts_bounds t kept ticks u.1 same (omega (arith, small, same)) in
    omega (arith, rest, sum, same, e)
