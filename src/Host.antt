-- ===== src/Host.antt =====
-- midi.cpp, `midiProcess`, and the MIDI task of main.cpp that runs it every millisecond: what goes out
-- to the host, what comes in, the heartbeat, and the frames that are handed to `handleSysExMessage`.
pub mod Frames
pub mod Query
pub mod LongFrames
pub mod Update
use nowde.Prelude.{
  ℕ, ◌+◌, Bool, true, false, not, Option, none, some, List, [], ◌∷◌, ◌++◌, length, if◌then◌else◌,
  u8,
}
use nowde.Usb.{Packet, Reader, read_packet}
use nowde.Usb.Queue.{UsbOut, usb_out_midi, usb_out_pump}
use nowde.Usb.Log.{Log, pump_log, usb_out_log_enable}
use nowde.Midi.{packets}
use nowde.Effects.{Effect, usb, midi, log_enable}
use nowde.Sync.{host_linked}
use nowde.Node.{Node, World}
use nowde.Sysex.{handle_sysex_message}

-- What the MIDI task works on: the node, the statics of midi.cpp and usb_out.cpp, and
-- `lastHostRxTime`.
pub record Host : Type 0 where
  pub node : Node
  pub reader : Reader
  pub last_host_rx_time : ℕ
  pub out : UsbOut
  pub log : Log

-- `midiWritePacket`, for each of some packets; one that finds the queue full is lost.
unfoldable pub midi_write_packets : List Packet → UsbOut → UsbOut
midi_write_packets [] u = u
midi_write_packets (p ∷ ps) u = midi_write_packets ps (usb_out_midi u p).0

-- What an effect puts into the queue.
unfoldable pub post_out : Effect → UsbOut → UsbOut
post_out (usb ps) u = midi_write_packets ps u
post_out (midi m) u = midi_write_packets (packets m) u
post_out _ u = u

-- What an effect does to the log.
unfoldable pub post_log : Effect → Log → Log
post_log (log_enable on) l = usb_out_log_enable on l
post_log _ l = l

unfoldable pub post_outs : List Effect → UsbOut → UsbOut
post_outs [] u = u
post_outs (e ∷ es) u = post_outs es (post_out e u)

unfoldable pub post_logs : List Effect → Log → Log
post_logs [] l = l
post_logs (e ∷ es) l = post_logs es (post_log e l)

-- The call of `handleSysExMessage`, whose `length` is a byte.
unfoldable pub hand_over : World → Option (List ℕ) → Node → Node × List Effect
hand_over w none n = (n, [])
hand_over w (some frame) n = handle_sysex_message w (u8 (length frame)) frame n

-- `if (!hostLinked()) hostResumed = true`.
abbrev pub note_host : World → ℕ → Node → Node
note_host w last n = if not (host_linked w.now last) then record n { host_resumed = true } else n

-- The body of the loop of `midiProcess`, for one packet from the host.
unfoldable pub midi_receive : World → Packet → Host → Host × List Effect
midi_receive w p h =
    let (reader, frame) = read_packet h.reader p in
    let (n, effects) = hand_over w frame (note_host w h.last_host_rx_time h.node) in
    (
      record {
        node = n;
        reader = reader;
        last_host_rx_time = w.now;
        out = post_outs effects h.out;
        log = post_logs effects h.log;
      },
      effects,
    )

-- The loop: the packets that are there.
unfoldable pub midi_receive_all : World → List Packet → Host → Host × List Effect
midi_receive_all w [] h = (h, [])
midi_receive_all w (p ∷ ps) h =
    let (h', effects) = midi_receive w p h in
    let (last, more) = midi_receive_all w ps h' in (last, effects ++ more)

-- `midiProcess`: the packets that TinyUSB took, and the effects of what the host sent. `accepts`
-- answers the writes of `usbOutPump`, `grants` the receives of `pumpLog`; `ps` is what
-- `midiReadPacket` gives.
unfoldable pub midi_process :
    World → (ℕ → Bool) → (ℕ → ℕ) → List Packet → Host → Host × List Packet × List Effect
midi_process w accepts grants ps h =
    let (u, sent) = usb_out_pump accepts w.now h.out in
    let (l, u') = pump_log grants h.log u in
    let (h', effects) = midi_receive_all w ps (record h { out = u'; log = l }) in
    (h', sent, effects)
