-- ===== src/Midi.antt =====
-- midi.cpp, the output side: control changes, MIDI time code and the real-time bytes.
pub mod TimeCode
use nowde.Prelude.{ℕ, ◌+◌, ◌*◌, ◌/◌, ◌%◌, List, [], ◌∷◌, u8, u32}
use nowde.Usb.{Packet, packet}

-- MTC_FRAMERATE.
abbrev pub mtc_framerate : ℕ
mtc_framerate = 30

pub record Smpte : Type 0 where
  pub frames : ℕ
  pub seconds : ℕ
  pub minutes : ℕ
  pub hours : ℕ

-- `toSmpte`. The product is a 32-bit one.
unfoldable pub to_smpte : ℕ → Smpte
to_smpte position_ms =
    let total_frames = u32 (position_ms * mtc_framerate) / 1000 in
    record {
      frames = total_frames % mtc_framerate;
      seconds = total_frames / mtc_framerate % 60;
      minutes = total_frames / (mtc_framerate * 60) % 60;
      hours = total_frames / (mtc_framerate * 3600) % 24;
    }

-- `midiSendCC`.
unfoldable pub midi_send_cc : ℕ → ℕ → List Packet
midi_send_cc cc value = packet 0x0B 0xB0 (cc % 128) (value % 128) ∷ []

-- The lambda `sendQuarterFrame`: the piece in the high nibble.
abbrev quarter_frame : ℕ → ℕ → Packet
quarter_frame piece nibble = packet 0x02 0xF1 (u8 (piece * 16 + nibble % 16)) 0

-- `midiSendTimeCode`: eight pieces, low nibble first; the last carries the rate code 3 (30 fps).
unfoldable pub midi_send_time_code : ℕ → List Packet
midi_send_time_code position_ms =
    let t = to_smpte position_ms in
    quarter_frame 0 (t.frames % 16)
    ∷ quarter_frame 1 (t.frames / 16 % 2)
    ∷ quarter_frame 2 (t.seconds % 16)
    ∷ quarter_frame 3 (t.seconds / 16 % 4)
    ∷ quarter_frame 4 (t.minutes % 16)
    ∷ quarter_frame 5 (t.minutes / 16 % 4)
    ∷ quarter_frame 6 (t.hours % 16)
    ∷ quarter_frame 7 (t.hours / 16 % 2 + 3 * 2)
    ∷ []

-- `midiSendFullFrame`: F0 7F 7F 01 01 hh mm ss ff F7, the rate code in bits 5 and 6 of hh.
unfoldable pub midi_send_full_frame : ℕ → List Packet
midi_send_full_frame position_ms =
    let t = to_smpte position_ms in
    packet 0x04 0xF0 0x7F 0x7F
    ∷ packet 0x04 0x01 0x01 (3 * 32 + t.hours % 32)
    ∷ packet 0x04 t.minutes t.seconds t.frames
    ∷ packet 0x05 0xF7 0 0
    ∷ []

-- `sendRealtime`, with the status of `midiSendStart` and of `midiSendStop`.
abbrev send_realtime : ℕ → List Packet
send_realtime status = packet 0x0F status 0 0 ∷ []

unfoldable pub midi_send_start : List Packet
midi_send_start = send_realtime 0xFA

unfoldable pub midi_send_stop : List Packet
midi_send_stop = send_realtime 0xFC

-- What a node tells its host, in the order of the calls; `packets` is what each call queues.
pub data Message : Type 0 where
  cc : ℕ → ℕ → Message
  time_code : ℕ → Message
  full_frame : ℕ → Message
  start : Message
  stop : Message

unfoldable pub packets : Message → List Packet
packets (cc number value) = midi_send_cc number value
packets (time_code position_ms) = midi_send_time_code position_ms
packets (full_frame position_ms) = midi_send_full_frame position_ms
packets start = midi_send_start
packets stop = midi_send_stop
