-- ===== src/Network/Latency.antt =====
-- When a packet that a station hears goes out again.
use nowde.Prelude.{
  ℕ, ◌+◌, ◌^◌, ◌≤◌, ◌<◌, ◌≡◌, refl, ap, ◌∙◌, false, List, some, get_elem?, u32, arith,
}
use nowde.Config.{max_hops, mesh_relay_delay_max_ms}
use nowde.Wire.{Mac, MediaSyncPacket}
use nowde.Wire.RoundTrip.{MediaSyncPacketIsValid}
use nowde.Relay.{relay_frame}
use nowde.Relay.Timing.{Paced, end_of, Adds, without, broadcasts, broadcasts_once}
use nowde.Delivery.Air.{copy_of}
use nowde.Node.{Node, World}
use nowde.Receive.{on_data_recv}
use nowde.Network.{Frame}
use nowde.Network.Delivery.{Carries, CanForward, held}

-- A station with a slot free hears a packet that it has not handled, under MAX_HOPS, from the master or
-- over a relay, with a drawn delay of at most 30 ms. Its mesh task polls from then on until after the
-- delay, each time at most `period` ms after the last, within one run of `millis()`, and nothing else is
-- heard meanwhile. Then an entry of its table holds the packet with one hop more, and adds exactly one
-- frame to what the polls broadcast with this forward cancelled: that of the packet, at a time not
-- before the delay is over and within 30 ms and one period of hearing the packet.
pub heard_goes_out_once :
    (w : World) (origin : Mac) (p : MediaSyncPacket) (f : Frame) (hop : ℕ) (n : Node) (period : ℕ)
    (ts : List ℕ)
    → Carries origin p f hop
    → MediaSyncPacketIsValid p
    → hop < max_hops
    → CanForward w origin p n
    → w.draw ≤ mesh_relay_delay_max_ms
    → w.now + w.draw < 2 ^ 32
    → Paced period w.now ts
    → w.now + w.draw < end_of w.now ts
    → let r = (on_data_recv w false f.src f.bytes n).0.relay in
      let copy = copy_of origin (hop + 1) (w.now + w.draw) p in
      (j : ℕ) × (t : ℕ) × (get_elem? r.pending j ≡ some copy)
      × Adds (t, relay_frame copy) (broadcasts ts (without j copy r)) (broadcasts ts r)
      × (w.now + w.draw ≤ t)
      × (t ≤ w.now + (mesh_relay_delay_max_ms + period))
heard_goes_out_once w origin p f hop n period ts c v h can short epoch paced late =
    let r = (on_data_recv w false f.src f.bytes n).0.relay in
    let copy = copy_of origin (hop + 1) (w.now + w.draw) p in
    let (j, at) = held w origin p f hop n c v h can in
    let no_wrap : u32 (w.now + w.draw) ≡ w.now + w.draw = omega (arith, epoch) in
    let there = at ∙ ap (λ time. some (copy_of origin (hop + 1) time p)) no_wrap in
    let (t, l, k, once) =
      broadcasts_once j period ts w.now r copy there refl paced (omega arith) late in
    (j, t, there, once, l, omega (arith, k, short))
