-- ===== src/Tests/Host.antt =====
-- The theorems on the host's side at concrete inputs.
use nowde.Prelude.{
  ℕ, ◌*◌, ◌/◌, ◌%◌, ◌≡◌, refl, inl, Bool, true, List, [], ◌∷◌, All, arith, ltb, ◌&&◌,
}
use nowde.Tests.{playing}
use nowde.Codec.{encode7bit, decode7bit}
use nowde.Codec.RoundTrip.{IsByte, decode7bit-encode7bit}
use nowde.Usb.{Packet, packet, Reader, fresh_reader, read_packets, sysex_packets}
use nowde.Usb.Reassembly.{frame, read_packets-sysex_packets, read_packets-Lost}
use nowde.Midi.{to_smpte, midi_send_time_code}
use nowde.Midi.TimeCode.{
  total_frames, total_frames-to_smpte, read_time_code, read_rate, IsTimeOfDay,
  midi_send_time_code_position,
}
use nowde.Wire.{media_sync_packet, media_sync_bytes}
use nowde.Wire.RoundTrip.{media_sync_packet-media_sync_bytes}

abbrev are_bytes : List ℕ → Bool
are_bytes [] = true
are_bytes (x ∷ xs) = ltb x 256 && are_bytes xs

are_bytes-IsByte : (xs : List ℕ) → are_bytes xs ≡ true → All IsByte xs
are_bytes-IsByte [] h = tt
are_bytes-IsByte (x ∷ xs) h = (ground arith, are_bytes-IsByte xs (ground arith))

-- Three bytes with their top bits set.
abbrev three : List ℕ
three = 200 ∷ 201 ∷ 202 ∷ []

three-IsByte : All IsByte three
three-IsByte = (omega arith, (omega arith, (omega arith, tt)))

codec_example : decode7bit (encode7bit three) ≡ three
codec_example = decode7bit-encode7bit three three-IsByte

arrives_example :
    read_packets fresh_reader (sysex_packets (frame (1 ∷ 2 ∷ [])))
    ≡ (fresh_reader, frame (1 ∷ 2 ∷ []) ∷ [])
arrives_example =
    read_packets-sysex_packets fresh_reader (1 ∷ 2 ∷ []) refl (omega arith, (omega arith, tt))
      (omega arith)

-- The reader after a frame that overflowed and was cut off before its F7.
abbrev overflowed : Reader
overflowed = record { buffer = []; in_sysex = true; overflow = true }

lost_example : read_packets overflowed (sysex_packets (frame (1 ∷ 2 ∷ []))) ≡ (fresh_reader, [])
lost_example = read_packets-Lost overflowed (1 ∷ 2 ∷ []) (omega arith, (omega arith, tt)) (inl refl)

-- The ERROR_REPORT of a bad configuration, six bytes.
abbrev error_frame : List ℕ
error_frame = 240 ∷ 125 ∷ 48 ∷ 1 ∷ 0 ∷ 247 ∷ []

abbrev stop_packet : Packet
stop_packet = packet 0x0F 0xFC 0 0

frames_example : total_frames (to_smpte 3661500) ≡ 3661500 * 30 / 1000 % (24 * 60 * 60 * 30)
frames_example = total_frames-to_smpte 3661500 (omega arith)

time_code_example :
    let ps = midi_send_time_code 3661500 in
    (read_rate ps ≡ 3)
    × IsTimeOfDay (read_time_code ps)
    × (total_frames (read_time_code ps) ≡ 3661500 * 30 / 1000 % (24 * 60 * 60 * 30))
time_code_example = midi_send_time_code_position 3661500 (omega arith)

packet_example : media_sync_packet (media_sync_bytes playing) ≡ playing
packet_example =
    media_sync_packet-media_sync_bytes playing
      (record { layer = refl; position = omega arith; timestamp = omega arith; seq = omega arith })
