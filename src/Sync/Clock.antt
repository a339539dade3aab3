-- ===== src/Sync/Clock.antt =====
-- What the guard against torn reads of the mesh clock does, and what it lets through.
use nowde.Prelude.{ℕ, ◌+◌, ◌-◌, ◌%◌, ◌≤◌, ◌<◌, ◌^◌, ◌≡◌, u32, arith}
use nowde.Sync.{mesh_millis_stable}

-- A first read that is torn upwards (by 2 ^ 32 us, 4294967 ms) is discarded: the second, a good one
-- up to 99 ms later, is the result.
pub mesh_millis_stable_torn_first :
    (t d r2 r3 r4 : ℕ)
    → t + d < 2 ^ 32
    → d < 100
    → mesh_millis_stable (u32 (t + 4294967)) (t + d) r2 r3 r4 ≡ t + d
unfolding mesh_millis_stable
mesh_millis_stable_torn_first t d r2 r3 r4 h k = ground arith

-- A second read that is torn downwards is returned, whatever the first was: the test bounds only
-- how far the second is ahead.
pub mesh_millis_stable_torn_second :
    (t d r2 r3 r4 : ℕ)
    → t < 2 ^ 32
    → 0 < d
    → d ≤ 2 ^ 31
    → mesh_millis_stable t ((t + 2 ^ 32 - d) % 2 ^ 32) r2 r3 r4 ≡ (t + 2 ^ 32 - d) % 2 ^ 32
unfolding mesh_millis_stable
mesh_millis_stable_torn_second t d r2 r3 r4 h k l = ground arith
