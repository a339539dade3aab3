-- ===== src/Resync/Spell.antt =====
-- What the self-heal does in a spell of ticks at which the node is coarse.
use nowde.Prelude.{
  ℕ, zero, suc, ◌+◌, ◌^◌, ◌≤◌, ◌<◌, ◌≡◌, ◌≢◌, refl, ap, ◌&&◌, inl, inr, List, [], ◌∷◌, ltb, leb,
  arith, if◌then◌else◌, Bool-cases, All,
}
use nowde.Config.{sync_coarse}
use nowde.Effects.{Effect, put_byte, reset_clock, restart, resyncrb}
use nowde.Resync.Steps.{
  Stands, tick_resets, tick_waits, tick_reboots, tick_stays, KeepsOff, settle-ends, first_tick,
}
use nowde.Resync.{Resync, mesh_resync_tick}

-- What reaches the mesh clock and the chip, with its time.
pub data Act : Type 0 where
  soft_reset : ℕ → Act
  store_count : ℕ → Act
  reboot : ℕ → Act

-- The acts of a tick, then those of the later ones; nothing comes after a restart.
abbrev pub acts_of : ℕ → List Effect → List Act → List Act
acts_of now [] later = later
acts_of now (reset_clock ∷ effects) later = soft_reset now ∷ acts_of now effects later
acts_of now (put_byte resyncrb count ∷ effects) later =
    store_count count ∷ acts_of now effects later
acts_of now (restart ∷ effects) later = reboot now ∷ []
acts_of now (e ∷ effects) later = acts_of now effects later

-- A spell of coarse ticks at the times `ts`.
unfoldable pub spell : Resync → List ℕ → List Act
spell r [] = []
spell r (now ∷ ts) =
    let (s, effects) = mesh_resync_tick now sync_coarse r in acts_of now effects (spell s ts)

-- What should happen after a spell began at `start` with `count` reboots behind, with `left` soft
-- resets to go and the last step at `last`: a soft reset at the first tick 15 s or more after the last
-- step; with none left, at the first tick 60 s or more after the beginning the next count is stored
-- and the chip reboots, unless two reboots are behind.
unfoldable pub plan : ℕ → ℕ → ℕ → ℕ → List ℕ → List Act
plan count start left last [] = []
plan count start (suc left) last (t ∷ ts) =
    if leb (last + 15000) t
    then soft_reset t ∷ plan count start left t ts
    else plan count start (suc left) last ts
plan count start zero last (t ∷ ts) =
    if leb (start + 60000) t && ltb count 2
    then store_count (count + 1) ∷ reboot t ∷ []
    else plan count start zero last ts

-- Times that do not go back, of 32 bits.
abbrev pub Ascending : ℕ → List ℕ → Type 0
Ascending start [] = Unit
Ascending start (t ∷ ts) = (start ≤ t) × (t < 2 ^ 32) × Ascending t ts

spell-plan_from :
    (count start left last : ℕ) (r : Resync) (prev : ℕ) (ts : List ℕ)
    → Stands count start left last r
    → last ≤ prev
    → Ascending prev ts
    → spell r ts ≡ plan count start left last ts
unfolding spell plan
spell-plan_from count start left last r prev [] h p a = refl
spell-plan_from count start (suc left) last r prev (now ∷ ts) h p (up, small, rest) =
    let l : last ≤ now = omega (arith, p, up) in
    elim (Bool-cases (leb (last + 15000) now)) [
      | inl e ↦
          let g : last + 15000 ≤ now = ground arith in
          let s : Resync = record r { soft_resets = r.soft_resets + 1; last_action = now } in
          let stands : Stands count start left now s = record {
            began = h.began;
            nonzero = h.nonzero;
            resets = omega (arith, h.resets);
            step = refl;
            reboots = h.reboots;
            order = omega (arith, h.order, l);
          } in
          rw (e, tick_resets count start last now r l small left h g)
            (ap (λ later. soft_reset now ∷ later)
              (spell-plan_from count start left now s now ts stands (omega arith) rest))
      | inr e ↦
          let g : now < last + 15000 = ground arith in
          rw (e, tick_waits count start last now r l small left h g)
            (spell-plan_from count start (suc left) last r now ts h l rest)
    ]
spell-plan_from count start zero last r prev (now ∷ ts) h p (up, small, rest) =
    let l : last ≤ now = omega (arith, p, up) in
    elim (Bool-cases (leb (start + 60000) now && ltb count 2)) [
      | inl e ↦
          let g : start + 60000 ≤ now = ground arith in
          let f : count < 2 = ground arith in
          rw (e, tick_reboots count start last now r l small h g f) refl
      | inr e ↦
          let (quiet, stands) = tick_stays count start last now r l small h e in
          let s = (mesh_resync_tick now sync_coarse r).0 in
          rw (e, quiet) (spell-plan_from count start zero last s now ts stands l rest)
    ]

-- After a boot, or after a tick at which the node is not coarse, which does nothing to the mesh clock
-- and the chip, a spell of coarse ticks begins at a time other than 0. While `millis()` does not wrap,
-- it does exactly this: nothing at first; a soft reset at the first tick 15 s or more after the
-- beginning, and one more at the first tick 15 s or more after that; from then on, at the first tick
-- 60 s or more after the beginning, the next count is stored and the chip restarts, if fewer than two
-- restarts are behind, and else nothing.
pub spell-plan :
    (before quality : ℕ) (old : Resync) (r : Resync) (start : ℕ) (ts : List ℕ)
    → quality ≢ sync_coarse
    → r.stuck_since ≡ 0
    → 0 < start
    → start < 2 ^ 32
    → Ascending start ts
    → (spell r (start ∷ ts) ≡ plan r.reboot_count start 2 start ts)
      × All KeepsOff (mesh_resync_tick before quality old).1
      × ((mesh_resync_tick before quality old).0.stuck_since ≡ 0)
unfolding spell
spell-plan before quality old r start ts q fresh nonzero small times =
    let s : Resync = record r { stuck_since = start; last_action = start; soft_resets = 0 } in
    let stands : Stands r.reboot_count start 2 start s = record {
      began = refl;
      nonzero = nonzero;
      resets = refl;
      step = refl;
      reboots = refl;
      order = omega arith;
    } in
    let (off, ended) = settle-ends before quality old q in
    (
      rw (first_tick start r fresh small)
          (spell-plan_from r.reboot_count start 2 start s start ts stands (omega arith) times),
      off,
      ended,
    )
