-- ===== src/Usb/Log/Drain.antt =====
-- The backlog of the boot: kept for the first host that enables the log, and then sent.
use nowde.Prelude.{ℕ, ◌+◌, ◌<◌, List, [], ◌∷◌, ◌++◌, length, leb, if◌then◌else◌}
use nowde.Usb.Queue.{UsbOut}
use nowde.Usb.Log.{Log, log_ring_bytes, log_write, pump_log}

-- What happens to the log before a host enables it.
pub data LogEvent : Type 0 where
  wrote : List ℕ → LogEvent
  pumped : (ℕ → ℕ) → LogEvent

unfoldable pub log_event : LogEvent → Log × UsbOut → Log × UsbOut
log_event (wrote bytes) (l, u) = ((log_write bytes l).0, u)
log_event (pumped grants) (l, u) = pump_log grants l u

unfoldable pub log_run : List LogEvent → Log × UsbOut → Log × UsbOut
log_run [] s = s
log_run (e ∷ es) s = log_run es (log_event e s)

-- The bytes that were written while there was room for them, after `kept`.
unfoldable pub backlog : List ℕ → List LogEvent → List ℕ
backlog kept [] = kept
backlog kept (wrote bytes ∷ es) =
    let with = backlog (kept ++ bytes) es in
    let without = backlog kept es in
    if leb (length kept + length bytes) log_ring_bytes then with else without
backlog kept (pumped grants ∷ es) = backlog kept es

-- Pumps of the log, one after the other.
unfoldable pub drain : List (ℕ → ℕ) → Log → UsbOut → Log × UsbOut
drain [] l u = (l, u)
drain (g ∷ gs) l u = let (l', u') = pump_log g l u in drain gs l' u'

-- Every receive gives out something while there is something.
abbrev pub IsGenerous : (ℕ → ℕ) → Type 0
IsGenerous grants = (k : ℕ) → 0 < grants k
