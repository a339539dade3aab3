-- ===== src/Task/LinkLoss.antt =====
-- What the host hears once the master is gone.
use nowde.Prelude.{ℕ, ◌<◌, ◌≡◌, true, false, List, [], ◌∷◌, ◌++◌, arith, sub32}
use nowde.Config.{link_lost_timeout_ms}
use nowde.Midi.{Message, cc, stop}
use nowde.Sync.{MediaSyncState}
use nowde.Task.{check_link, run_clock}

-- The two steps that the task makes with the state of following.
abbrev pub turn : ℕ → MediaSyncState → MediaSyncState × List Message
turn now s =
    let (checked, lost) = check_link now s in
    let (running, code) = run_clock now checked in (running, lost ++ code)

-- A node that plays, whose policy is STOP, and that has heard no packet for more than 10 s.
abbrev pub IsSilenced : ℕ → MediaSyncState → Type 0
IsSilenced now s =
    (s.current_state ≡ 1)
    × (s.link_lost ≡ false)
    × (link_lost_timeout_ms < sub32 now s.last_sync_time)

-- A node that plays under the policy STOP, has heard no packet for more than 10 s and has not noted
-- the loss yet sends CC#100 = 0 and Stop, no time code in the same turn, and nothing in a later turn
-- before the next packet.
pub link_lost_stops :
    (now later : ℕ) (s : MediaSyncState)
    → IsSilenced now s
    → s.stop_on_link_lost ≡ true
    → ((turn now s).1 ≡ cc 100 0 ∷ stop ∷ []) × ((turn later (turn now s).0).1 ≡ [])
unfolding check_link run_clock
link_lost_stops now later s h p = (ground arith, ground arith)

-- For a node that plays under the policy FREEWHEEL, has heard no packet for more than 10 s and has
-- not noted the loss yet, the loss changes nothing that the host hears: the time code goes on as it
-- would have without the check, and the loss is noted.
pub link_lost_freewheels :
    (now : ℕ) (s : MediaSyncState)
    → IsSilenced now s
    → s.stop_on_link_lost ≡ false
    → ((turn now s).1 ≡ (run_clock now s).1) × ((turn now s).0.link_lost ≡ true)
unfolding check_link run_clock
link_lost_freewheels now s h p = (ground arith, ground arith)
