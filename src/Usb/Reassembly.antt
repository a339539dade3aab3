-- ===== src/Usb/Reassembly.antt =====
-- `midiProcess` gets back the frames that were cut into packets, within its 512 bytes.
use nowde.Prelude.{
  ℕ, suc, ◌+◌, ◌≤◌, ◌<◌, ◌≡◌, refl, ap, ◌∙◌, Bool, true, false, none, some, List, [], ◌∷◌, ◌++◌,
  length, length-append, ltb, ◌⊎◌, inl, inr, All, Option, if◌then◌else◌, arith,
}
use nowde.Codec.RoundTrip.{IsData}
use mathlib.Core.List.{append_assoc}
use nowde.Usb.Frames.{sysex_packets-cons3}
use nowde.Usb.{
  packet, sysex_start, sysex_end, sysex_packets, Reader, fresh_reader, sysex_buffer_size,
  store_byte, read_packet, read_packets,
}

-- In the middle of a frame, with `acc` read.
abbrev reading : List ℕ → Bool → Reader
reading acc o = record { buffer = acc; in_sysex = true; overflow = o }

-- A byte that `midiProcess` stores in front of a packet: a data byte, or the F0 of this frame.
abbrev Head : List ℕ → ℕ → Type 0
Head acc a = IsData a ⊎ ((acc ≡ []) × (a ≡ sysex_start))

-- The rest of a frame, without its F7.
abbrev Rest : List ℕ → List ℕ → Type 0
Rest acc [] = Unit
Rest acc (a ∷ rest) = Head acc a × All IsData rest

Rest-of : (acc rest : List ℕ) → All IsData rest → Rest acc rest
Rest-of acc [] d = tt
Rest-of acc (a ∷ rest) d = (inl d.0, d.1)

-- A full packet with no F7 in it: three bytes are stored.
read_packet-three :
    (acc : List ℕ) (o : Bool) (a b c : ℕ)
    → Head acc a
    → IsData b
    → IsData c
    → read_packet (reading acc o) (packet 0x04 a b c)
      ≡ (store_byte (store_byte (store_byte (reading acc o) a) b) c, none)
unfolding read_packet
read_packet-three acc o a b c ha hb hc = ground arith

store_byte-fits :
    (acc : List ℕ) (o : Bool) (b : ℕ)
    → length acc < sysex_buffer_size
    → store_byte (reading acc o) b ≡ reading (acc ++ b ∷ []) o
unfolding store_byte
store_byte-fits acc o b h = ground arith

-- Three more bytes fit.
store_three :
    (acc : List ℕ) (o : Bool) (a b c : ℕ)
    → length acc + 3 ≤ sysex_buffer_size
    → store_byte (store_byte (store_byte (reading acc o) a) b) c ≡ reading (acc ++ a ∷ b ∷ c ∷ []) o
store_three acc o a b c h =
    let one = acc ++ a ∷ [] in
    let two = one ++ b ∷ [] in
    let l1 = length-append acc (a ∷ []) in
    let l2 = length-append one (b ∷ []) in
    ap (λ r. store_byte (store_byte r b) c) (store_byte-fits acc o a (omega arith))
    ∙ ap (λ r. store_byte r c) (store_byte-fits one o b (omega (arith, l1)))
    ∙ store_byte-fits two o c (omega (arith, l1, l2))
    ∙ ap (λ l. reading l o)
        (append_assoc one (b ∷ []) (c ∷ []) ∙ append_assoc acc (a ∷ []) (b ∷ c ∷ []))

-- What a frame leaves when its last byte is in.
abbrev closed : Reader → Reader × Option (List ℕ)
closed r = (fresh_reader, if r.overflow then none else some r.buffer)

read_packet-one :
    (acc : List ℕ) (o : Bool)
    → read_packet (reading acc o) (packet 0x05 sysex_end 0 0)
      ≡ closed (store_byte (reading acc o) sysex_end)
unfolding read_packet
read_packet-one acc o = refl

read_packet-two :
    (acc : List ℕ) (o : Bool) (a : ℕ)
    → Head acc a
    → read_packet (reading acc o) (packet 0x06 a sysex_end 0)
      ≡ closed (store_byte (store_byte (reading acc o) a) sysex_end)
unfolding read_packet
read_packet-two acc o a ha = ground arith

read_packet-last :
    (acc : List ℕ) (o : Bool) (a b : ℕ)
    → Head acc a
    → IsData b
    → read_packet (reading acc o) (packet 0x07 a b sysex_end)
      ≡ closed (store_byte (store_byte (store_byte (reading acc o) a) b) sysex_end)
unfolding read_packet
read_packet-last acc o a b ha hb = ground arith

store_two :
    (acc : List ℕ) (o : Bool) (a b : ℕ)
    → length acc + 2 ≤ sysex_buffer_size
    → store_byte (store_byte (reading acc o) a) b ≡ reading (acc ++ a ∷ b ∷ []) o
store_two acc o a b h =
    ap (λ r. store_byte r b) (store_byte-fits acc o a (omega arith))
    ∙ store_byte-fits (acc ++ a ∷ []) o b (omega (arith, length-append acc (a ∷ [])))
    ∙ ap (λ l. reading l o) (append_assoc acc (a ∷ []) (b ∷ []))

-- From the middle of a frame to its end, with room for all of it.
read_tail :
    (acc rest : List ℕ)
    → Rest acc rest
    → length acc + length rest < sysex_buffer_size
    → read_packets (reading acc false) (sysex_packets (rest ++ sysex_end ∷ []))
      ≡ (fresh_reader, (acc ++ (rest ++ sysex_end ∷ [])) ∷ [])
unfolding read_packets sysex_packets
read_tail acc [] d h =
    rw (read_packet-one acc false, store_byte-fits acc false sysex_end (omega arith))
read_tail acc (a ∷ []) d h =
    rw (read_packet-two acc false a d.0, store_two acc false a sysex_end (omega arith))
read_tail acc (a ∷ b ∷ []) d h =
    rw (read_packet-last acc false a b d.0 d.1.0, store_three acc false a b sysex_end (omega arith))
read_tail acc (a ∷ b ∷ c ∷ rest) d h =
    let acc' = acc ++ a ∷ b ∷ c ∷ [] in
    let more =
      read_tail acc' rest (Rest-of acc' rest d.1.1.1)
        (omega (arith, length-append acc (a ∷ b ∷ c ∷ []))) in
    rw
      (
        sysex_packets-cons3 a b c sysex_end rest,
        read_packet-three acc false a b c d.0 d.1.0 d.1.1.0,
        store_three acc false a b c (omega arith),
        more,
      )
      (ap (λ l. (fresh_reader, l ∷ []))
        (append_assoc acc (a ∷ b ∷ c ∷ []) (rest ++ sysex_end ∷ [])))

-- `store_byte` on the two fields that change.
abbrev kept : List ℕ → ℕ → List ℕ
kept acc b = if ltb (length acc) sysex_buffer_size then acc ++ b ∷ [] else acc

abbrev late : List ℕ → Bool → Bool
late acc o = if ltb (length acc) sysex_buffer_size then o else true

store_byte_lem :
    (acc : List ℕ) (o : Bool) (b : ℕ)
    → store_byte (reading acc o) b ≡ reading (kept acc b) (late acc o)
unfolding store_byte
store_byte_lem acc o b = ground arith

-- The flag stays set, and is set by a byte for which there is no room.
late-of :
    (acc : List ℕ) (o : Bool) → (o ≡ true) ⊎ (sysex_buffer_size ≤ length acc) → late acc o ≡ true
late-of acc o h = ground arith

-- Whether the frame is already lost, or will be when `n` more bytes are stored.
abbrev Lost : List ℕ → Bool → ℕ → Type 0
Lost acc o n = (o ≡ true) ⊎ (sysex_buffer_size ≤ length acc + n)

Lost-kept :
    (acc : List ℕ) (o : Bool) (b n : ℕ) → Lost acc o (suc n) → Lost (kept acc b) (late acc o) n
Lost-kept acc o b n h = ground (arith, length-append acc (b ∷ []))

-- From the middle of a frame to its end, without room for all of it.
read_tail-Lost :
    (acc rest : List ℕ) (o : Bool)
    → Rest acc rest
    → Lost acc o (length rest)
    → read_packets (reading acc o) (sysex_packets (rest ++ sysex_end ∷ [])) ≡ (fresh_reader, [])
unfolding read_packets sysex_packets
read_tail-Lost acc [] o d h =
    rw (read_packet-one acc o, store_byte_lem acc o sysex_end, late-of acc o (ground arith))
read_tail-Lost acc (a ∷ []) o d h =
    let k1 = Lost-kept acc o a 0 h in
    rw (
      read_packet-two acc o a d.0,
      store_byte_lem acc o a,
      store_byte_lem (kept acc a) (late acc o) sysex_end,
      late-of (kept acc a) (late acc o) (ground arith),
    )
read_tail-Lost acc (a ∷ b ∷ []) o d h =
    let k1 = Lost-kept acc o a 1 h in
    let k2 = Lost-kept (kept acc a) (late acc o) b 0 k1 in
    rw (
      read_packet-last acc o a b d.0 d.1.0,
      store_byte_lem acc o a,
      store_byte_lem (kept acc a) (late acc o) b,
      store_byte_lem (kept (kept acc a) b) (late (kept acc a) (late acc o)) sysex_end,
      late-of (kept (kept acc a) b) (late (kept acc a) (late acc o)) (ground arith),
    )
read_tail-Lost acc (a ∷ b ∷ c ∷ rest) o d h =
    let n = length rest in
    let k1 = Lost-kept acc o a (suc (suc n)) h in
    let k2 = Lost-kept (kept acc a) (late acc o) b (suc n) k1 in
    let k3 = Lost-kept (kept (kept acc a) b) (late (kept acc a) (late acc o)) c n k2 in
    rw
      (
        sysex_packets-cons3 a b c sysex_end rest,
        read_packet-three acc o a b c d.0 d.1.0 d.1.1.0,
        store_byte_lem acc o a,
        store_byte_lem (kept acc a) (late acc o) b,
        store_byte_lem (kept (kept acc a) b) (late (kept acc a) (late acc o)) c,
      )
      (read_tail-Lost (kept (kept (kept acc a) b) c) rest
        (late (kept (kept acc a) b) (late (kept acc a) (late acc o)))
        (Rest-of (kept (kept (kept acc a) b) c) rest d.1.1.1) k3)

-- A complete frame as the host or a node sends it.
abbrev pub frame : List ℕ → List ℕ
frame body = sysex_start ∷ body ++ sysex_end ∷ []

-- F0 opens a frame in whatever state the reader is, and keeps its overflow flag.
read_packets-open :
    (r : Reader) (body : List ℕ)
    → read_packets r (sysex_packets (frame body))
      ≡ read_packets (reading [] r.overflow) (sysex_packets (frame body))
unfolding read_packets read_packet sysex_packets
read_packets-open r [] = refl
read_packets-open r (a ∷ []) = refl
read_packets-open r (a ∷ b ∷ []) = refl
read_packets-open r (a ∷ b ∷ c ∷ rest) = refl

-- The packets that `sendSysExBytes` queues for a frame of data bytes of at most 512 bytes, read
-- by `midiProcess` in any state with the overflow flag clear (in the middle of another frame
-- too), hand over exactly that frame, once, and leave the reader as at boot.
pub read_packets-sysex_packets :
    (r : Reader) (body : List ℕ)
    → r.overflow ≡ false
    → All IsData body
    → length body + 2 ≤ sysex_buffer_size
    → read_packets r (sysex_packets (frame body)) ≡ (fresh_reader, frame body ∷ [])
read_packets-sysex_packets r body e d h =
    read_packets-open r body
    ∙ ap (λ o. read_packets (reading [] o) (sysex_packets (frame body))) e
    ∙ read_tail [] (sysex_start ∷ body) (inr (refl, refl), d) (omega arith)

-- A frame that is longer than 512 bytes, or that comes while the overflow flag is set, is handed
-- over neither whole nor in part, and the reader is as at boot after it.
pub read_packets-Lost :
    (r : Reader) (body : List ℕ)
    → All IsData body
    → (r.overflow ≡ true) ⊎ (sysex_buffer_size < length body + 2)
    → read_packets r (sysex_packets (frame body)) ≡ (fresh_reader, [])
read_packets-Lost r body d h =
    read_packets-open r body
    ∙ read_tail-Lost [] (sysex_start ∷ body) r.overflow (inr (refl, refl), d) (ground arith)
