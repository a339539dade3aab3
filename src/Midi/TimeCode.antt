-- ===== src/Midi/TimeCode.antt =====
-- Time code: the fields are in range, say where the stream is, and survive the wire.
use mathlib.Core.Path.{subst}
use nowde.Prelude.{
  ℕ, sym, ap, ◌∙◌, ◌+◌, ◌*◌, ◌/◌, ◌%◌, ◌≤◌, ◌<◌, ◌≡◌, List, [], ◌∷◌, length, get_or, zero, suc,
  ◌==◌, if◌then◌else◌, All, ◌^◌, arith,
}
use nowde.Codec.RoundTrip.{IsData}
use nowde.Usb.{Packet, sysex_packets}
use nowde.Usb.Reassembly.{frame}
use nowde.Midi.{Smpte, to_smpte, quarter_frame, midi_send_time_code, midi_send_full_frame}

-- Whatever the position, the fields are those of a time of day at 30 frames a second.
pub to_smpte_bounds :
    (position_ms : ℕ)
    → let t = to_smpte position_ms in
      (t.frames < 30) × (t.seconds < 60) × (t.minutes < 60) × (t.hours < 24)
unfolding to_smpte
to_smpte_bounds position_ms = (omega arith, omega arith, omega arith, omega arith)

-- Frames since midnight.
abbrev pub total_frames : Smpte → ℕ
total_frames t = ((t.hours * 60 + t.minutes) * 60 + t.seconds) * 30 + t.frames

-- For a position whose product by 30 fits 32 bits (under 39 hours 46 minutes), the time code counts
-- the whole frames of the position, modulo one day.
pub total_frames-to_smpte :
    (position_ms : ℕ)
    → position_ms * 30 < 2 ^ 32
    → total_frames (to_smpte position_ms) ≡ position_ms * 30 / 1000 % (24 * 60 * 60 * 30)
unfolding to_smpte
total_frames-to_smpte position_ms h = omega arith

-- How a host reads eight quarter frames: piece k of the value byte's high nibble, its low nibble.
pub nibble : List Packet → ℕ → ℕ
nibble [] k = 0
nibble (p ∷ ps) k = if p.byte2 / 16 == k then p.byte2 % 16 else nibble ps k

abbrev pub read_time_code : List Packet → Smpte
read_time_code ps = record {
  frames = nibble ps 0 + 16 * (nibble ps 1 % 2);
  seconds = nibble ps 2 + 16 * (nibble ps 3 % 4);
  minutes = nibble ps 4 + 16 * (nibble ps 5 % 4);
  hours = nibble ps 6 + 16 * (nibble ps 7 % 2);
}

pieces : ℕ → List ℕ → List Packet
pieces k [] = []
pieces k (n ∷ ns) = quarter_frame k n ∷ pieces (k + 1) ns

nibble-pieces :
    (k : ℕ) (ns : List ℕ) (i : ℕ)
    → k + length ns ≤ 16
    → i < length ns
    → nibble (pieces k ns) (k + i) ≡ get_or ns i 0 % 16
unfolding pieces nibble
nibble-pieces k [] i h l = elim l [ ]
nibble-pieces k (n ∷ ns) zero h l = ground arith
nibble-pieces k (n ∷ ns) (suc i) h l =
    let e : k + suc i ≡ k + 1 + i = omega arith in
    let more = nibble-pieces (k + 1) ns i (omega arith) (omega arith) in rw e (ground arith)

-- The rate code beside the hours: 3 is 30 frames a second, no frames dropped.
abbrev pub read_rate : List Packet → ℕ
read_rate ps = nibble ps 7 / 2 % 4

-- The eight nibbles, before they are cut to four bits.
nibbles : Smpte → List ℕ
nibbles t =
    t.frames % 16
    ∷ t.frames / 16 % 2
    ∷ t.seconds % 16
    ∷ t.seconds / 16 % 4
    ∷ t.minutes % 16
    ∷ t.minutes / 16 % 4
    ∷ t.hours % 16
    ∷ (t.hours / 16 % 2 + 3 * 2)
    ∷ []

nibble-midi_send_time_code :
    (position_ms i : ℕ)
    → i < 8
    → nibble (midi_send_time_code position_ms) i ≡ get_or (nibbles (to_smpte position_ms)) i 0 % 16
unfolding midi_send_time_code pieces nibbles
nibble-midi_send_time_code position_ms i h =
    let from_zero : i ≡ 0 + i = omega arith in
    ap (nibble (midi_send_time_code position_ms)) from_zero
    ∙ nibble-pieces 0 (nibbles (to_smpte position_ms)) i (omega arith) h

read_time_code-midi_send_time_code :
    (position_ms : ℕ) → read_time_code (midi_send_time_code position_ms) ≡ to_smpte position_ms
unfolding nibbles
read_time_code-midi_send_time_code position_ms =
    let t = to_smpte position_ms in
    let read = read_time_code (midi_send_time_code position_ms) in
    let bounds = to_smpte_bounds position_ms in
    let at = λ (i : ℕ) (h : i < 8). nibble-midi_send_time_code position_ms i h in
    let f : read.frames ≡ t.frames = omega (arith, at 0 (omega arith), at 1 (omega arith)) in
    let s : read.seconds ≡ t.seconds = omega (arith, at 2 (omega arith), at 3 (omega arith)) in
    let m : read.minutes ≡ t.minutes = omega (arith, at 4 (omega arith), at 5 (omega arith)) in
    let h : read.hours ≡ t.hours = omega (arith, at 6 (omega arith), at 7 (omega arith)) in
    λ i. record { frames = f i; seconds = s i; minutes = m i; hours = h i }

-- A time of day at 30 frames a second.
pub record IsTimeOfDay (t : Smpte) : Type 0 where
  pub frames : t.frames < 30
  pub seconds : t.seconds < 60
  pub minutes : t.minutes < 60
  pub hours : t.hours < 24

-- For a position of less than 2 ^ 32 / 30 ms (under 39 hours 46 minutes), a host that puts together its
-- eight quarter frames reads the rate of 30 frames a second and a time of day: that of the whole frames
-- up to the position, modulo one day.
pub midi_send_time_code_position :
    (position_ms : ℕ)
    → position_ms * 30 < 2 ^ 32
    → let ps = midi_send_time_code position_ms in
      (read_rate ps ≡ 3)
      × IsTimeOfDay (read_time_code ps)
      × (total_frames (read_time_code ps) ≡ position_ms * 30 / 1000 % (24 * 60 * 60 * 30))
unfolding nibbles
midi_send_time_code_position position_ms h =
    let same = read_time_code-midi_send_time_code position_ms in
    let (f, s, m, o) = to_smpte_bounds position_ms in
    let is_time : IsTimeOfDay (to_smpte position_ms) = record {
      frames = f;
      seconds = s;
      minutes = m;
      hours = o;
    } in
    (
      omega (arith, nibble-midi_send_time_code position_ms 7 (omega arith)),
      subst IsTimeOfDay (sym same) is_time,
      ap total_frames same ∙ total_frames-to_smpte position_ms h,
    )

-- The ten bytes of a full frame, after its F0 and before its F7.
abbrev full_frame_body : Smpte → List ℕ
full_frame_body t =
    0x7F ∷ 0x7F ∷ 0x01 ∷ 0x01 ∷ (96 + t.hours) ∷ t.minutes ∷ t.seconds ∷ t.frames ∷ []

-- A full frame is a well-formed SysEx frame: `sendSysExBytes` would cut it in the same packets,
-- and all its bytes between F0 and F7 are data bytes.
pub midi_send_full_frame_lem :
    (position_ms : ℕ)
    → let body = full_frame_body (to_smpte position_ms) in
      (midi_send_full_frame position_ms ≡ sysex_packets (frame body)) × All IsData body
unfolding midi_send_full_frame sysex_packets
midi_send_full_frame_lem position_ms =
    let bounds = to_smpte_bounds position_ms in (ground arith, omega arith)
