-- ===== src/Follow/Gaps.antt =====
-- The delivery signal: what the gap counter counts.
use nowde.Prelude.{ℕ, ◌+◌, ◌%◌, ◌≤◌, ◌<◌, ◌≡◌, refl, true, arith}
use Prim.Native.Nat.{min}
use nowde.Config.{mediasync_max_gap}
use nowde.Wire.{media_sync_len}
use nowde.Sync.{MediaSyncState}
use nowde.Follow.{count_gap}

-- After the frame numbered `last_seq`, `lost` frames go missing and the next one arrives: up to 100
-- missing frames are added to the counter, which stops at 65535, across a wrap of the number too;
-- more than 100 are not counted. The number heard becomes the one to count from.
pub count_gap_lem :
    (s : MediaSyncState) (lost seq : ℕ)
    → s.have_seq ≡ true
    → s.last_seq < 65536
    → s.sync_gaps ≤ 65535
    → lost < 65536
    → seq ≡ (s.last_seq + 1 + lost) % 65536
    → let t = count_gap media_sync_len seq s in
      (lost ≤ mediasync_max_gap → t.sync_gaps ≡ min (s.sync_gaps + lost) 65535)
      × (mediasync_max_gap < lost → t.sync_gaps ≡ s.sync_gaps)
      × (t.last_seq ≡ seq)
      × (t.have_seq ≡ true)
unfolding count_gap
count_gap_lem s lost seq h l g k e = (λ q. ground arith, λ q. ground arith, refl, refl)

-- The counter never falls and never passes 65535, whatever arrives.
pub count_gap_bounds :
    (len seq : ℕ) (s : MediaSyncState)
    → s.sync_gaps ≤ 65535
    → (s.sync_gaps ≤ (count_gap len seq s).sync_gaps) × ((count_gap len seq s).sync_gaps ≤ 65535)
unfolding count_gap
count_gap_bounds len seq s h = ground arith
