-- ===== src/Codec.antt =====
-- sysex.cpp, `encode7bit` and `decode7bit`: eight-bit data in the seven-bit bytes that MIDI SysEx
-- carries. Seven bytes become eight: their top bits, then their low seven bits.
pub mod RoundTrip
use nowde.Prelude.{
  ℕ, zero, suc, ◌+◌, ◌*◌, ◌/◌, ◌%◌, List, [], ◌∷◌, ◌++◌, map, length, take, drop, ◌==◌,
  if◌then◌else◌,
}

-- `b & 0x7F`.
abbrev pub low7 : ℕ → ℕ
low7 b = b % 128

-- `(b & 0x80) != 0`, as 0 or 1.
abbrev top_bit : ℕ → ℕ
top_bit b = b / 128 % 2

-- The byte with bit i set where `chunk[i] & 0x80` (`msbByte |= 1 << i` on a fresh bit).
msb_byte : List ℕ → ℕ
msb_byte [] = 0
msb_byte (b ∷ chunk) = top_bit b + 2 * msb_byte chunk

encode_chunks : ℕ → List ℕ → List ℕ
unfolding msb_byte
encode_chunks zero input = []
encode_chunks (suc fuel) [] = []
encode_chunks (suc fuel) (b ∷ rest) =
    let chunk = take 7 (b ∷ rest) in
    let more = encode_chunks fuel (drop 7 (b ∷ rest)) in msb_byte chunk ∷ map low7 chunk ++ more

-- A chunk takes a byte at least, so as many chunks as bytes are enough.
unfoldable pub encode7bit : List ℕ → List ℕ
unfolding encode_chunks
encode7bit input = encode_chunks (length input) input

-- `byte |= 0x80`.
abbrev set_top : ℕ → ℕ
set_top b = if top_bit b == 1 then b else b + 128

-- Bit i of `msb` (here bit 0 of `msb` halved i times) restores the top bit of byte i.
restore : ℕ → List ℕ → List ℕ
restore msb [] = []
restore msb (b ∷ chunk) = (if msb % 2 == 1 then set_top b else b) ∷ restore (msb / 2) chunk

decode_chunks : ℕ → List ℕ → List ℕ
unfolding restore
decode_chunks zero input = []
decode_chunks (suc fuel) [] = []
decode_chunks (suc fuel) (msb ∷ rest) =
    let more = decode_chunks fuel (drop 7 rest) in restore msb (take 7 rest) ++ more

unfoldable pub decode7bit : List ℕ → List ℕ
unfolding decode_chunks
decode7bit input = decode_chunks (length input) input
