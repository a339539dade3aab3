-- ===== src/Tests/Life.antt =====
-- The theorems on a node's life, on tasks that write to the host, and on chains, at concrete inputs.
use nowde.Prelude.{
  ℕ, ◌≤◌, ◌==◌, sub32, strnlen, if◌then◌else◌, strncpy, some, get_elem?, ◌≡◌, refl, inr, true,
  false, List, [], ◌∷◌, ◌++◌, All, map, arith,
}
use nowde.Task.Stale.{packet_heard}
use nowde.Tests.{sender_a, slave, own_mac, playing, world, mac_a, mac_b, layer_l1}
use nowde.Wire.{media_sync_bytes, receiver_info_bytes}
use nowde.Usb.{Packet, packet, fresh_reader, read_packets, sysex_packets}
use nowde.Usb.Queue.{usb_out_midi}
use nowde.Midi.{to_smpte, midi_send_full_frame}
use nowde.Node.{Node, World, apply_role, resolve_role, load_role}
use nowde.Replies.{receiver_data, frame, running_state_bodies, snapshot, chunk_packets, send_hello}
use nowde.Replies.Slaves.{slave_of, told}
use nowde.Replies.Chunks.{state_packets}
use nowde.Boot.{Build, empty_store, setup, resolve_boot, power_on}
use nowde.Panel.{synced}
use nowde.Life.{Event, hears, serves, turns, ticks, power_up, apply_effects, live_all}
use nowde.Life.Runs.{HearsOnly}
use nowde.Effects.{esp_now_send, usb}
use nowde.Task.{Tasks}
use nowde.Life.Sound.{NodeIsSound, life-NodeIsSound}
use nowde.Life.Fits.{IsFrame, NodeFits, life-NodeFits}
use nowde.Life.Status.{life_status}
use nowde.Life.Report.{answers_at, report_reaches_host}
use nowde.Life.Turns.{run_turns}
use nowde.Tables.{ReceiverEntry}
use nowde.Tables.Reported.{Says, HasRoomFor}
use nowde.Slots.{find_slot}
use nowde.Sync.{node_sync_quality}
use nowde.Codec.RoundTrip.{IsByte}
use nowde.Commands.{report_of, send_receiver_info, query_running_state}
use nowde.Receive.{on_data_recv}
use nowde.Writers.{
  full_frame, Writers, start, IsShort, Reach, here, next, locks, writes, unlocks, passes, stream,
  usb_out_lock, usb_out_unlock, write_next, write_single,
}
use nowde.Writers.Frames.{calls_frames}
use nowde.Writers.Contiguous.{Reach-whole}

abbrev star : Build
star = record { layer = b'*' ∷ []; lr = false; loss = true }

-- What a slave reports of itself.
abbrev report : List ℕ
report = 2 ∷ layer_l1 ++ (b'2' ∷ b'.' ∷ b'2' ∷ 0 ∷ 0 ∷ 0 ∷ 0 ∷ 0 ∷ 7 ∷ 2 ∷ 3 ∷ 0 ∷ [])

-- A master hears a report, a beacon and a frame of a master, answers a host, and has its turns, of
-- which a packet interrupts the last.
abbrev day : List Event
day =
    turns world []
    ∷ hears world false mac_b report
    ∷ serves world (λ k. true) (λ k. 0) (sysex_packets (frame 0x03 []))
    ∷ hears world false mac_a (1 ∷ [])
    ∷ ticks 6000 synced (record { mac = own_mac; ms_since_sync = 20; free_heap = 90000 })
        (record { clicked = true; held = false; released = false })
    ∷ turns world (packet_heard world mac_b playing ∷ [])
    ∷ []

abbrev evening : Node
evening = (live_all day (power_up world star 2 true empty_store)).tasks.node

day-HearsOnly : All (HearsOnly IsFrame) day
unfolding media_sync_bytes
day-HearsOnly = (tt, (omega arith, (tt, (omega arith, (tt, ((omega arith, tt), tt))))))

sound_example : NodeIsSound evening
sound_example = life-NodeIsSound world star 2 true empty_store day

status_example :
    let bodies = running_state_bodies world evening.receivers in
    (read_packets fresh_reader (state_packets bodies) ≡ (fresh_reader, map (frame 0x22) bodies))
    × (map slave_of bodies ≡ told 6000 (snapshot evening.receivers))
status_example = life_status world world star 2 true empty_store day day-HearsOnly

abbrev rate : Packet
rate = packet 0x04 0x01 0x01 96

abbrev time : Packet
time = packet 0x04 0 1 0

abbrev last : Packet
last = packet 0x05 0xF7 0 0

-- Task 0 writes a full frame; a Start comes between its packets.
abbrev busy : Writers
busy = usb_out_unlock 0 (
    write_next 0 last [] (
      write_next 0 time (last ∷ []) (
        write_single (packet 0x0F 0xFA 0 0) (
          write_next 0 rate (time ∷ last ∷ []) (
            write_next 0 (packet 0x04 0xF0 0x7F 0x7F) (rate ∷ time ∷ last ∷ [])
              (usb_out_lock 0 (full_frame 1000) start))))))

busy-Reach : Reach IsShort busy
unfolding usb_out_midi midi_send_full_frame to_smpte
busy-Reach =
    next
      (next
        (next
          (next
            (next
              (next (next here (locks 0 (full_frame 1000) refl refl tt)) (
                writes 0 (packet 0x04 0xF0 0x7F 0x7F) (rate ∷ time ∷ last ∷ []) refl (omega arith)))
              (writes 0 rate (time ∷ last ∷ []) refl (omega arith)))
            (passes (packet 0x0F 0xFA 0 0) (inr refl) (omega arith)))
          (writes 0 time (last ∷ []) refl (omega arith)))
        (writes 0 last [] refl (omega arith)))
      (unlocks 0 refl)

whole_example : read_packets fresh_reader (stream busy) ≡ (fresh_reader, calls_frames busy.calls)
whole_example = Reach-whole busy busy-Reach refl

-- A master that has just booted.
abbrev booted : Node
booted = (live_all [] (power_up world star 2 true empty_store)).tasks.node

booted-NodeFits : NodeFits booted
booted-NodeFits = life-NodeFits world star 2 true empty_store [] tt

booted-master : booted.sender_mode ≡ true
unfolding live_all power_up apply_effects setup resolve_boot power_on apply_role resolve_role
    load_role
booted-master = refl

booted-HasRoomFor : HasRoomFor mac_b booted.receivers
unfolding live_all power_up apply_effects setup resolve_boot power_on apply_role resolve_role
    load_role find_slot
booted-HasRoomFor = λ e. cc

slave-IsByte : All IsByte (receiver_info_bytes (report_of world slave))
unfolding receiver_info_bytes strncpy node_sync_quality
slave-IsByte = omega arith

-- Master a, when it hears the slave, and 1 s later.
abbrev world_a : World
world_a = record world { my_mac = mac_a }

abbrev later_a : World
later_a = record world_a { now = 7000 }

abbrev tasks_a : Tasks
tasks_a = record {
  node = booted;
  resync = record {
    stuck_since = 0;
    last_action = 0;
    soft_resets = 0;
    gave_up = false;
    reboot_count = 0;
  };
  last_sender_beacon = 5500;
  next_receiver_beacon = 0;
}

booted-ready : 500 ≤ sub32 (answers_at later_a booted).now booted.last_running_state
unfolding live_all power_up apply_effects setup resolve_boot power_on apply_role resolve_role
    load_role
booted-ready = omega arith

slave-named : (strnlen slave.subscribed_layer 15 == 0) ≡ false
unfolding strnlen
slave-named = refl

report_example :
    let bytes = receiver_info_bytes (report_of world slave) in
    let after = (on_data_recv world_a false mac_b bytes booted).0 in
    let n = (run_turns (later_a ∷ []) (record tasks_a { node = after })).node in
    let later = answers_at later_a n in
    let bodies = running_state_bodies later n.receivers in
    (send_receiver_info world slave ≡ map (λ to. esp_now_send to bytes) (mac_a ∷ []))
    × ((k : ℕ) × (get_elem? (send_receiver_info world slave) k ≡ some (esp_now_send mac_a bytes)))
    × ((query_running_state later_a n).1
        ≡ (if n.host_resumed
            then send_hello later_a (record n { host_resumed = false }) ∷ []
            else [])
          ++ map (λ body. usb (chunk_packets body)) bodies)
    × (read_packets fresh_reader (state_packets bodies) ≡ (fresh_reader, map (frame 0x22) bodies))
    × ((j : ℕ) × (e : ReceiverEntry) × (get_elem? (map slave_of bodies) j
          ≡ some (receiver_data later.now e))
        × Says 6000 mac_b (report_of world slave) e)
report_example =
    report_reaches_host world world_a later_a mac_b slave booted sender_a 0 (later_a ∷ []) tasks_a
      refl slave-named refl refl refl (omega arith) slave-IsByte (omega arith) (omega arith)
      booted-master booted-NodeFits booted-HasRoomFor (omega arith, tt) booted-ready
