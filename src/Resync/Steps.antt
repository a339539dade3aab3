-- ===== src/Resync/Steps.antt =====
-- main.cpp, `meshResyncTick`: each kind of tick, by where its statics stand.
use nowde.Prelude.{
  ℕ, suc, ◌+◌, ◌^◌, ◌≤◌, ◌<◌, ◌≡◌, ◌≢◌, refl, ◌&&◌, false, List, [], ◌∷◌, ltb, leb, ◌==◌, arith,
  All, if_both, not,
}
use nowde.Config.{sync_coarse, sync_locked, mesh_max_soft_resets}
use nowde.Effects.{Effect, put_byte, reset_clock, restart, resyncrb}
use nowde.Resync.{Resync, settle, escalate, mesh_resync_tick}

-- Where the statics of the function stand.
pub record Stands (count start left last : ℕ) (r : Resync) : Type 0 where
  pub began : r.stuck_since ≡ start
  pub nonzero : 0 < start
  pub resets : r.soft_resets + left ≡ mesh_max_soft_resets
  pub step : r.last_action ≡ last
  pub reboots : r.reboot_count ≡ count
  pub order : start ≤ last

module _ (count start last now : ℕ) (r : Resync) (l : last ≤ now) (k : now < 2 ^ 32) where
  pub tick_resets :
      (left : ℕ)
      → Stands count start (suc left) last r
      → last + 15000 ≤ now
      → mesh_resync_tick now sync_coarse r
        ≡ (record r { soft_resets = r.soft_resets + 1; last_action = now }, reset_clock ∷ [])
  unfolding mesh_resync_tick escalate
  tick_resets left h g =
      let a = h.began in let b = h.nonzero in let c = h.resets in let d = h.step in ground arith

  pub tick_waits :
      (left : ℕ)
      → Stands count start (suc left) last r
      → now < last + 15000
      → mesh_resync_tick now sync_coarse r ≡ (r, [])
  unfolding mesh_resync_tick escalate
  tick_waits left h g =
      let a = h.began in let b = h.nonzero in let c = h.resets in let d = h.step in ground arith

  pub tick_reboots :
      Stands count start 0 last r
      → start + 60000 ≤ now
      → count < 2
      → mesh_resync_tick now sync_coarse r ≡ (r, put_byte resyncrb (count + 1) ∷ restart ∷ [])
  unfolding mesh_resync_tick escalate
  tick_reboots h g f =
      let a = h.began in
      let b = h.nonzero in
      let c = h.resets in let d = h.step in let e = h.reboots in let o = h.order in ground arith

  -- Before its time, or with both reboots behind, nothing happens but the note that it gave up.
  pub tick_stays :
      Stands count start 0 last r
      → leb (start + 60000) now && ltb count 2 ≡ false
      → ((mesh_resync_tick now sync_coarse r).1 ≡ [])
        × Stands count start 0 last (mesh_resync_tick now sync_coarse r).0
  unfolding mesh_resync_tick escalate
  tick_stays h g =
      let a = h.began in
      let b = h.nonzero in
      let c = h.resets in
      let d = h.step in
      let e = h.reboots in
      let o = h.order in
      (
        ground arith,
        record {
          began = ground arith;
          nonzero = b;
          resets = ground arith;
          step = ground arith;
          reboots = ground arith;
          order = o;
        },
      )

-- No act on the mesh clock or the chip.
abbrev pub KeepsOff : Effect → Type 0
KeepsOff reset_clock = ⊥
KeepsOff restart = ⊥
KeepsOff _ = Unit

-- A tick that is not coarse ends the spell, and touches neither the clock nor the chip.
pub settle-ends :
    (now quality : ℕ) (r : Resync)
    → quality ≢ sync_coarse
    → All KeepsOff (mesh_resync_tick now quality r).1
      × ((mesh_resync_tick now quality r).0.stuck_since ≡ 0)
unfolding mesh_resync_tick settle
settle-ends now quality r q =
    let other : quality == 1 ≡ false = ground arith in
    rw other (
      if_both (λ (v : Resync × List Effect). All KeepsOff v.1 × (v.0.stuck_since ≡ 0))
        (quality == sync_locked && not (r.reboot_count == 0)) _ _ ((tt, tt), refl) (tt, refl))

pub first_tick :
    (start : ℕ) (r : Resync)
    → r.stuck_since ≡ 0
    → start < 2 ^ 32
    → mesh_resync_tick start sync_coarse r
      ≡ (record r { stuck_since = start; last_action = start; soft_resets = 0 }, [])
unfolding mesh_resync_tick escalate
first_tick start r z small = ground arith
