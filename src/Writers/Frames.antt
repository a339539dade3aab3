-- ===== src/Writers/Frames.antt =====
-- The packets that a call queues, as a reader of USB-MIDI takes them.
use mathlib.Core.List.{append_assoc}
use nowde.Codec.RoundTrip.{IsData}
use nowde.Prelude.{
  ℕ, ◌+◌, ◌*◌, ◌%◌, ◌≡◌, refl, ap, sym, ◌∙◌, Bool, false, ◌&&◌, none, List, [], ◌∷◌, ◌++◌, All, leb,
  if◌then◌else◌, append-nil, arith, inl, inr, Bool-cases,
}
use nowde.Usb.{Packet, fresh_reader, Reader, sysex_packets, read_packet, read_packets}
use nowde.Usb.Reassembly.{frame, read_packets-sysex_packets}
use nowde.Usb.Log.Arrival.{read_packets-append}
use nowde.Midi.{to_smpte, midi_send_full_frame, midi_send_time_code}
use nowde.Writers.{Call, sysex, full_frame, time_code, call_packets, CallFits}

-- A packet of SysEx, by its code index number.
abbrev pub is_sysex : Packet → Bool
is_sysex p = leb 4 (p.header % 16) && leb (p.header % 16) 7

-- The packets of SysEx alone.
unfoldable pub sysex_of : List Packet → List Packet
sysex_of [] = []
sysex_of (p ∷ ps) = if is_sysex p then p ∷ sysex_of ps else sysex_of ps

pub sysex_of-append : (ps qs : List Packet) → sysex_of (ps ++ qs) ≡ sysex_of ps ++ sysex_of qs
unfolding sysex_of
sysex_of-append [] qs = refl
sysex_of-append (p ∷ ps) qs = ground (arith, sysex_of-append ps qs)

read_packet-skips : (r : Reader) (p : Packet) → is_sysex p ≡ false → read_packet r p ≡ (r, none)
unfolding read_packet
read_packet-skips r p e = rw e refl

-- A reader skips every other packet.
pub read_packets-sysex_of :
    (r : Reader) (ps : List Packet) → read_packets r ps ≡ read_packets r (sysex_of ps)
unfolding read_packets sysex_of
read_packets-sysex_of r [] = refl
read_packets-sysex_of r (p ∷ ps) = elim (Bool-cases (is_sysex p)) [
  | inl e ↦ rw e (rw (read_packets-sysex_of (read_packet r p).0 ps) refl)
  | inr e ↦ rw e (rw (read_packet-skips r p e) (read_packets-sysex_of r ps))
]

-- The bytes of a full frame.
pub full_frame_body : ℕ → List ℕ
full_frame_body position_ms =
    let t = to_smpte position_ms in
    0x7F ∷ 0x7F ∷ 0x01 ∷ 0x01 ∷ (3 * 32 + t.hours % 32) ∷ t.minutes ∷ t.seconds ∷ t.frames ∷ []

-- The frames of a call.
pub call_frames : Call → List (List ℕ)
unfolding full_frame_body
call_frames (sysex body) = frame body ∷ []
call_frames (full_frame position_ms) = frame (full_frame_body position_ms) ∷ []
call_frames (time_code position_ms) = []

pub calls_frames : List Call → List (List ℕ)
unfolding call_frames
calls_frames [] = []
calls_frames (c ∷ cs) = call_frames c ++ calls_frames cs

unfoldable pub calls_packets : List Call → List Packet
calls_packets [] = []
calls_packets (c ∷ cs) = call_packets c ++ calls_packets cs

calls_packets-append :
    (cs ds : List Call) → calls_packets (cs ++ ds) ≡ calls_packets cs ++ calls_packets ds
unfolding calls_packets
calls_packets-append [] ds = refl
calls_packets-append (c ∷ cs) ds =
    ap (λ t. call_packets c ++ t) (calls_packets-append cs ds)
    ∙ sym (append_assoc (call_packets c) (calls_packets cs) (calls_packets ds))

pub calls_packets_last :
    (cs : List Call) (c : Call) → calls_packets (cs ++ c ∷ []) ≡ calls_packets cs ++ call_packets c
unfolding calls_packets
calls_packets_last cs c =
    calls_packets-append cs (c ∷ []) ∙ ap (λ t. calls_packets cs ++ t) (append-nil (call_packets c))

-- A full frame is cut as `sendSysExBytes` would cut it.
pub midi_send_full_frame-sysex_packets :
    (position_ms : ℕ)
    → midi_send_full_frame position_ms ≡ sysex_packets (frame (full_frame_body position_ms))
unfolding midi_send_full_frame sysex_packets full_frame_body
midi_send_full_frame-sysex_packets position_ms = refl

full_frame_body-IsData : (position_ms : ℕ) → All IsData (full_frame_body position_ms)
unfolding full_frame_body to_smpte
full_frame_body-IsData position_ms = omega arith

full_frame-read :
    (position_ms : ℕ)
    → read_packets fresh_reader (midi_send_full_frame position_ms)
      ≡ (fresh_reader, frame (full_frame_body position_ms) ∷ [])
unfolding full_frame_body
full_frame-read position_ms =
    ap (read_packets fresh_reader) (midi_send_full_frame-sysex_packets position_ms)
    ∙ read_packets-sysex_packets fresh_reader (full_frame_body position_ms) refl
        (full_frame_body-IsData position_ms) (omega arith)

time_code-read :
    (position_ms : ℕ)
    → read_packets fresh_reader (midi_send_time_code position_ms) ≡ (fresh_reader, [])
unfolding midi_send_time_code read_packets read_packet
time_code-read position_ms = refl

call-read :
    (c : Call)
    → CallFits c
    → read_packets fresh_reader (call_packets c) ≡ (fresh_reader, call_frames c)
unfolding call_frames
call-read (sysex body) (d, l) = read_packets-sysex_packets fresh_reader body refl d l
call-read (full_frame position_ms) h = full_frame-read position_ms
call-read (time_code position_ms) h = time_code-read position_ms

pub calls-read :
    (cs : List Call)
    → All CallFits cs
    → read_packets fresh_reader (calls_packets cs) ≡ (fresh_reader, calls_frames cs)
unfolding calls_packets calls_frames read_packets
calls-read [] h = refl
calls-read (c ∷ cs) h =
    read_packets-append fresh_reader (call_packets c) (calls_packets cs)
    ∙ rw (call-read c h.0) (rw (calls-read cs h.1) refl)
