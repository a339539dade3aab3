-- ===== src/Usb.antt =====
-- USB-MIDI: four-byte event packets, how each sender of sysex.cpp and usb_out.cpp cuts a SysEx
-- frame into them, and how `midiProcess` (midi.cpp) puts a frame from the host together again.
pub mod Frames
pub mod Reassembly
pub mod ErrorFrames
pub mod Scan
pub mod Queue
pub mod Log
use nowde.Prelude.{
  ℕ, ◌+◌, ◌%◌, Bool, true, false, ◌&&◌, Option, none, some, List, [], ◌∷◌, ◌++◌, length, ltb, leb,
  ◌==◌, if◌then◌else◌,
}

-- `midiEventPacket_t`: the header holds the code index number, then three bytes.
pub record Packet : Type 0 where
  pub header : ℕ
  pub byte1 : ℕ
  pub byte2 : ℕ
  pub byte3 : ℕ

abbrev pub packet : ℕ → ℕ → ℕ → ℕ → Packet
packet h a b c = record { header = h; byte1 = a; byte2 = b; byte3 = c }

abbrev pub sysex_start : ℕ
sysex_start = 0xF0

abbrev pub sysex_end : ℕ
sysex_end = 0xF7

-- `sendSysExBytes`; the loop of `enqueueLogFrame` is the same.
unfoldable pub sysex_packets : List ℕ → List Packet
sysex_packets [] = []
sysex_packets (a ∷ []) = packet 0x05 a 0 0 ∷ []
sysex_packets (a ∷ b ∷ []) = packet 0x06 a b 0 ∷ []
sysex_packets (a ∷ b ∷ c ∷ []) = packet 0x07 a b c ∷ []
sysex_packets (a ∷ b ∷ c ∷ d ∷ rest) = packet 0x04 a b c ∷ sysex_packets (d ∷ rest)

-- The loop of `sendHello`: it looks for F7 among the next three bytes.
unfoldable pub scanned_packets : List ℕ → List Packet
scanned_packets [] = []
scanned_packets (a ∷ []) = if a == sysex_end then packet 0x05 a 0 0 ∷ [] else packet 0x04 a 0 0 ∷ []
scanned_packets (a ∷ b ∷ []) =
    let after_one = packet 0x05 a 0 0 ∷ scanned_packets (b ∷ []) in
    if a == sysex_end
    then after_one
    else if b == sysex_end
    then packet 0x06 a b 0 ∷ []
    else packet 0x04 a b 0 ∷ []
scanned_packets (a ∷ b ∷ c ∷ rest) =
    let after_one = packet 0x05 a 0 0 ∷ scanned_packets (b ∷ c ∷ rest) in
    let after_two = packet 0x06 a b 0 ∷ scanned_packets (c ∷ rest) in
    let after_three = packet (if c == sysex_end then 0x07 else 0x04) a b c ∷ scanned_packets rest in
    if a == sysex_end then after_one else if b == sysex_end then after_two else after_three

-- The loop of `sendErrorReport` after its first packet: a last byte F7 that stands alone gets 05;
-- all else goes out under 04, short packets filled with zeros.
error_tail : List ℕ → List Packet
error_tail [] = []
error_tail (a ∷ []) = packet (if a == sysex_end then 0x05 else 0x04) a 0 0 ∷ []
error_tail (a ∷ b ∷ []) = packet 0x04 a b 0 ∷ []
error_tail (a ∷ b ∷ c ∷ rest) = packet 0x04 a b c ∷ error_tail rest

-- The loop of `sendErrorReport`.
unfoldable pub error_packets : List ℕ → List Packet
unfolding error_tail
error_packets [] = []
error_packets (a ∷ []) = packet 0x04 a 0 0 ∷ []
error_packets (a ∷ b ∷ []) = packet 0x04 a b 0 ∷ []
error_packets (a ∷ b ∷ c ∷ rest) = packet 0x04 a b c ∷ error_tail rest

-- The statics of midi.cpp; `sysexIndex` is the length of `buffer`.
pub record Reader : Type 0 where
  pub buffer : List ℕ
  pub in_sysex : Bool
  pub overflow : Bool

-- SYSEX_BUFFER_SIZE.
abbrev pub sysex_buffer_size : ℕ
sysex_buffer_size = 512

abbrev pub fresh_reader : Reader
fresh_reader = record { buffer = []; in_sysex = false; overflow = false }

-- One byte of a SysEx frame: kept while there is room.
unfoldable pub store_byte : Reader → ℕ → Reader
store_byte r b =
    if ltb (length r.buffer) sysex_buffer_size
    then record r { buffer = r.buffer ++ b ∷ [] }
    else record r { overflow = true }

-- The inner loop of `midiProcess`. F7 ends the frame: it is handed to `handleSysExMessage`
-- unless it overflowed, the statics are reset, and the rest of the packet is skipped.
read_bytes : Reader → List ℕ → Reader × Option (List ℕ)
read_bytes r [] = (r, none)
read_bytes r (b ∷ rest) =
    let more = read_bytes (store_byte r b) rest in
    if b == sysex_end
    then (fresh_reader, if (store_byte r b).overflow then none else some (store_byte r b).buffer)
    else more

-- The data bytes of a SysEx packet by its code index number.
data_bytes : Packet → List ℕ
data_bytes p =
    let cin = p.header % 16 in
    if cin == 4
    then p.byte1 ∷ p.byte2 ∷ p.byte3 ∷ []
    else if cin == 5
    then p.byte1 ∷ []
    else if cin == 6
    then p.byte1 ∷ p.byte2 ∷ []
    else if cin == 7
    then p.byte1 ∷ p.byte2 ∷ p.byte3 ∷ []
    else []

-- F0 as the first byte opens a frame. The overflow flag is left as it is.
open_frame : Reader → Packet → Reader
open_frame r p = if p.byte1 == sysex_start then record r { in_sysex = true; buffer = [] } else r

-- The body of the loop of `midiProcess`, for one packet.
unfoldable pub read_packet : Reader → Packet → Reader × Option (List ℕ)
unfolding read_bytes data_bytes open_frame
read_packet r p =
    let cin = p.header % 16 in
    if leb 4 cin && leb cin 7
    then (if (open_frame r p).in_sysex
        then read_bytes (open_frame r p) (data_bytes p)
        else (open_frame r p, none))
    else (r, none)

abbrev pub add_frame : Option (List ℕ) → List (List ℕ) → List (List ℕ)
add_frame none frames = frames
add_frame (some f) frames = f ∷ frames

-- The frames that a run of packets hands over, in order, and the reader that is left.
unfoldable pub read_packets : Reader → List Packet → Reader × List (List ℕ)
read_packets r [] = (r, [])
read_packets r (p ∷ ps) =
    let (r', frame) = read_packet r p in
    let (last, frames) = read_packets r' ps in (last, add_frame frame frames)
