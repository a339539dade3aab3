-- ===== src/Usb/Queue.antt =====
-- usb_out.cpp: one queue in front of the MIDI IN endpoint. Every task enqueues (`usbOutMidi`); the
-- MIDI task alone pumps (`usbOutPump`). The queue itself is FreeRTOS's, a bounded FIFO; whether
-- TinyUSB takes a packet is an argument, one answer for each write of a pump.
pub mod Order
use nowde.Prelude.{
  ℕ, zero, suc, ◌<◌, Bool, true, false, List, [], ◌∷◌, ◌++◌, length, ltb, ◌==◌, if◌then◌else◌,
  sub32,
}
use nowde.Usb.{Packet}

-- MIDI_QUEUE_PACKETS, USB_STALL_DROP_MS, and the budget of one pump.
abbrev pub midi_queue_packets : ℕ
midi_queue_packets = 1024

abbrev pub usb_stall_drop_ms : ℕ
usb_stall_drop_ms = 200

abbrev pub pump_budget : ℕ
pump_budget = 64

-- `midiQueue` and the static `stalledSince` (0: flowing).
pub record UsbOut : Type 0 where
  pub queue : List Packet
  pub stalled_since : ℕ

-- `usbOutMidi`: the new queue, and whether there was room.
unfoldable pub usb_out_midi : UsbOut → Packet → UsbOut × Bool
usb_out_midi u p =
    if ltb (length u.queue) midi_queue_packets
    then (record u { queue = u.queue ++ p ∷ [] }, true)
    else (u, false)

-- TinyUSB refused the packet `p` in front of `rest`.
refused : Packet → List Packet → ℕ → ℕ → UsbOut
refused p rest now since =
    if since == 0
    then record { queue = p ∷ rest; stalled_since = now }
    else if ltb usb_stall_drop_ms (sub32 now since)
    then record { queue = []; stalled_since = since }
    else record { queue = p ∷ rest; stalled_since = since }

-- The loop of `usbOutPump`, and the packets that went out. `accepts k` answers the k-th write.
pump_loop : ℕ → (ℕ → Bool) → ℕ → List Packet → ℕ → UsbOut × List Packet
unfolding refused
pump_loop zero accepts now queue since = (record { queue = queue; stalled_since = since }, [])
pump_loop (suc budget) accepts now [] since = (record { queue = []; stalled_since = since }, [])
pump_loop (suc budget) accepts now (p ∷ rest) since =
    let more = pump_loop budget (λ k. accepts (suc k)) now rest 0 in
    if accepts 0 then (more.0, p ∷ more.1) else (refused p rest now since, [])

-- `usbOutPump`.
unfoldable pub usb_out_pump : (ℕ → Bool) → ℕ → UsbOut → UsbOut × List Packet
unfolding pump_loop
usb_out_pump accepts now u = pump_loop pump_budget accepts now u.queue u.stalled_since
