-- ===== src/Writers.antt =====
-- usb_out.cpp, `usbOutLock` and `usbOutUnlock`, and their use by every task that talks to the host:
-- tasks that interleave, packet by packet, in front of the one queue that the MIDI task pumps.
-- FreeRTOS's mutex is given to one task at a time; a task that finds it taken waits.
pub mod Frames
pub mod Contiguous
use nowde.Prelude.{
  ℕ, ◌+◌, ◌<◌, ◌≤◌, ◌≡◌, ◌⊎◌, Bool, Option, none, some, List, [], ◌∷◌, ◌++◌, All, length, ◌==◌,
  if◌then◌else◌,
}
use nowde.Codec.RoundTrip.{IsData}
use nowde.Usb.{Packet, sysex_packets, sysex_buffer_size}
use nowde.Usb.Reassembly.{frame}
use nowde.Usb.Queue.{UsbOut, usb_out_midi, usb_out_pump, midi_queue_packets}
use nowde.Usb.Queue.Order.{IsFlowing}
use nowde.Midi.{midi_send_time_code, midi_send_full_frame}

-- What is written under the lock: a frame of sysex.cpp or of the log, a full frame, a time code.
pub data Call : Type 0 where
  sysex : List ℕ → Call
  full_frame : ℕ → Call
  time_code : ℕ → Call

abbrev pub call_packets : Call → List Packet
call_packets (sysex body) = sysex_packets (frame body)
call_packets (full_frame position_ms) = midi_send_full_frame position_ms
call_packets (time_code position_ms) = midi_send_time_code position_ms

-- Data bytes, as many as a reader takes.
abbrev pub CallFits : Call → Type 0
CallFits (sysex body) = All IsData body × (length body + 2 ≤ sysex_buffer_size)
CallFits _ = Unit {0}

-- Where a task stands: outside, or holding the lock with packets left to write.
pub data Pc : Type 0 where
  idle : Pc
  writing : List Packet → Pc

-- The lock, the tasks, the queue, what TinyUSB took, and the calls in the order in which they got
-- the lock.
pub record Writers : Type 0 where
  pub holder : Option ℕ
  pub pc : ℕ → Pc
  pub out : UsbOut
  pub sent : List Packet
  pub calls : List Call

abbrev pub start : Writers
start = record {
  holder = none;
  pc = λ i. idle;
  out = record { queue = []; stalled_since = 0 };
  sent = [];
  calls = [];
}

-- A family changed at one index.
abbrev pub put_at : ℕ → Pc → (ℕ → Pc) → ℕ → Pc
put_at i p pc j = if i == j then p else pc j

-- `usbOutLock`, once the mutex is given.
abbrev pub usb_out_lock : ℕ → Call → Writers → Writers
usb_out_lock i c s = record s {
  holder = some i;
  pc = put_at i (writing (call_packets c)) s.pc;
  calls = s.calls ++ c ∷ [];
}

-- The holder writes its next packet.
abbrev pub write_next : ℕ → Packet → List Packet → Writers → Writers
write_next i p ps s = record s { pc = put_at i (writing ps) s.pc; out = (usb_out_midi s.out p).0 }

-- `usbOutUnlock`.
abbrev pub usb_out_unlock : ℕ → Writers → Writers
usb_out_unlock i s = record s { holder = none; pc = put_at i idle s.pc }

-- A packet written with no lock.
abbrev pub write_single : Packet → Writers → Writers
write_single p s = record s { out = (usb_out_midi s.out p).0 }

-- `usbOutPump`, of the MIDI task.
abbrev pub pump_out : (ℕ → Bool) → ℕ → Writers → Writers
pump_out accepts now s =
    let (u, taken) = usb_out_pump accepts now s.out in record s { out = u; sent = s.sent ++ taken }

-- There is room for one packet more.
abbrev pub HasRoom : Writers → Type 0
HasRoom s = length s.out.queue < midi_queue_packets

-- One step of one task, while the queue has room and the host reads. `Single` says which packets
-- are written with no lock.
pub data Step (Single : Packet → Type 0) (s : Writers) : Writers → Type 0 where
  locks :
      (i : ℕ) (c : Call)
      → s.holder ≡ none
      → s.pc i ≡ idle
      → CallFits c
      → Step Single s (usb_out_lock i c s)
  writes :
      (i : ℕ) (p : Packet) (ps : List Packet)
      → s.pc i ≡ writing (p ∷ ps)
      → HasRoom s
      → Step Single s (write_next i p ps s)
  unlocks : (i : ℕ) → s.pc i ≡ writing [] → Step Single s (usb_out_unlock i s)
  passes : (p : Packet) → Single p → HasRoom s → Step Single s (write_single p s)
  pumps :
      (accepts : ℕ → Bool) (now : ℕ)
      → IsFlowing now s.out.stalled_since
      → Step Single s (pump_out accepts now s)

pub data Reach (Single : Packet → Type 0) : Writers → Type 0 where
  here : Reach Single start
  next : {s t : Writers} → Reach Single s → Step Single s t → Reach Single t

-- A control change, Start or Stop: `midiSendCC` and `sendRealtime` write one packet, with no lock.
abbrev pub IsShort : Packet → Type 0
IsShort p = (p.header ≡ 0x0B) ⊎ (p.header ≡ 0x0F)

-- All that was written: what TinyUSB took, then what waits in the queue.
abbrev pub stream : Writers → List Packet
stream s = s.sent ++ s.out.queue
