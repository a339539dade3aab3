-- ===== src/Usb/Queue/Order.antt =====
-- Order, loss and bounds of the outgoing queue.
use nowde.Prelude.{
  ℕ, zero, suc, ◌≤◌, ◌<◌, ◌≡◌, refl, ◌⊎◌, inl, Bool, false, List, [], ◌∷◌, ◌++◌, length,
  length-append, sub32, arith, ◌≢◌,
}
use nowde.Usb.{Packet}
use nowde.Usb.Queue.{
  UsbOut, midi_queue_packets, usb_stall_drop_ms, pump_budget, usb_out_midi, pump_loop, usb_out_pump,
}

-- The stall, if there is one, is not yet older than the limit.
abbrev pub IsFlowing : ℕ → ℕ → Type 0
IsFlowing now since = (since ≡ 0) ⊎ (sub32 now since ≤ usb_stall_drop_ms)

pump_loop-append :
    (n : ℕ) (accepts : ℕ → Bool) (now : ℕ) (q : List Packet) (since : ℕ)
    → IsFlowing now since
    → (pump_loop n accepts now q since).1 ++ (pump_loop n accepts now q since).0.queue ≡ q
unfolding pump_loop
pump_loop-append zero accepts now q since h = refl
pump_loop-append (suc n) accepts now [] since h = refl
pump_loop-append (suc n) accepts now (p ∷ q) since h =
    ground (arith, pump_loop-append n (λ k. accepts (suc k)) now q 0 (inl refl))

-- A pump during a flow or a stall of at most 200 ms loses and reorders nothing: what it sent,
-- followed by what it left in the queue, is the queue before.
pub usb_out_pump-append :
    (accepts : ℕ → Bool) (now : ℕ) (u : UsbOut)
    → IsFlowing now u.stalled_since
    → (usb_out_pump accepts now u).1 ++ (usb_out_pump accepts now u).0.queue ≡ u.queue
unfolding usb_out_pump
usb_out_pump-append accepts now u h =
    pump_loop-append pump_budget accepts now u.queue u.stalled_since h

pump_loop_stale :
    (n : ℕ) (accepts : ℕ → Bool) (now : ℕ) (q : List Packet) (since : ℕ)
    → accepts 0 ≡ false
    → since ≢ 0
    → usb_stall_drop_ms < sub32 now since
    → pump_loop (suc n) accepts now q since ≡ (record { queue = []; stalled_since = since }, [])
unfolding pump_loop
pump_loop_stale n accepts now [] since a s h = refl
pump_loop_stale n accepts now (p ∷ q) since a s h = ground arith

-- A pump whose first write is refused, in a stall older than 200 ms, empties the queue and sends
-- nothing: a host that opens the port later is not sent a stale stream.
pub usb_out_pump_stale :
    (accepts : ℕ → Bool) (now : ℕ) (u : UsbOut)
    → accepts 0 ≡ false
    → u.stalled_since ≢ 0
    → usb_stall_drop_ms < sub32 now u.stalled_since
    → usb_out_pump accepts now u ≡ (record { queue = []; stalled_since = u.stalled_since }, [])
unfolding usb_out_pump
usb_out_pump_stale accepts now u a s h =
    pump_loop_stale 63 accepts now u.queue u.stalled_since a s h

pump_loop-length :
    (n : ℕ) (accepts : ℕ → Bool) (now : ℕ) (q : List Packet) (since : ℕ)
    → (length (pump_loop n accepts now q since).1 ≤ n)
      × (length (pump_loop n accepts now q since).0.queue ≤ length q)
unfolding pump_loop
pump_loop-length zero accepts now q since = (omega arith, omega arith)
pump_loop-length (suc n) accepts now [] since = (omega arith, omega arith)
pump_loop-length (suc n) accepts now (p ∷ q) since =
    ground (arith, pump_loop-length n (λ k. accepts (suc k)) now q 0)

usb_out_midi-length :
    (u : UsbOut) (p : Packet)
    → length u.queue ≤ midi_queue_packets
    → length (usb_out_midi u p).0.queue ≤ midi_queue_packets
unfolding usb_out_midi
usb_out_midi-length u p h = ground (arith, length-append u.queue (p ∷ []))

-- The queue never holds more than 1024 packets, and one pump sends at most 64.
pub usb_out_bounds :
    (u : UsbOut) (p : Packet) (accepts : ℕ → Bool) (now : ℕ)
    → length u.queue ≤ midi_queue_packets
    → (length (usb_out_midi u p).0.queue ≤ midi_queue_packets)
      × (length (usb_out_pump accepts now u).0.queue ≤ midi_queue_packets)
      × (length (usb_out_pump accepts now u).1 ≤ pump_budget)
unfolding usb_out_pump
usb_out_bounds u p accepts now h =
    let (sent, left) = pump_loop-length pump_budget accepts now u.queue u.stalled_since in
    (usb_out_midi-length u p h, omega (arith, left), sent)
