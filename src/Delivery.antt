-- ===== src/Delivery.antt =====
-- A position that a host plays, from its SysEx frame on a master (sysex.cpp) over the air to a slave
-- (esp_now_handlers.cpp, receiver_mode.cpp).
pub mod Air
use nowde.Prelude.{
  ℕ, zero, suc, ◌+◌, ◌^◌, ◌≤◌, ◌<◌, ◌≡◌, refl, ap, ◌∙◌, sym, true, false, List, [], ◌∷◌, ◌++◌,
  length, take, drop, get_or, All, All-append, arith, u16, ◌*◌, ◌/◌, ◌%◌,
}
use mathlib.Core.List.{append_assoc}
use nowde.Codec.{decode7bit, encode7bit, low7}
use nowde.Codec.RoundTrip.{IsData, decode7bit-encode7bit, encode7bit-IsData}
use nowde.Usb.{sysex_packets, read_packets, fresh_reader}
use nowde.Replies.{frame, be32}
use nowde.Replies.Delivery.{frame_arrives}
use nowde.Wire.{MediaSyncPacket, media_sync_bytes, broadcast_address}
use nowde.Wire.RoundTrip.{MediaSyncPacketIsValid, get_or-append, take-append, drop-append}
use nowde.Effects.{Effect, relay}
use nowde.Tables.{layer_buffer}
use nowde.Node.{Node, World}
use nowde.Commands.{media_position, media_packet, media_sync}
use nowde.Sysex.{handle_sysex_message, command}

-- What a host asks its master to play.
pub record Cue : Type 0 where
  pub layer : List ℕ
  pub index : ℕ
  pub position : ℕ
  pub state : ℕ
  pub volume : ℕ
  pub flags : ℕ

-- The 16 characters of the layer and the other fields fit in MIDI data bytes, the position in 32
-- bits.
pub record CueIsValid (c : Cue) : Type 0 where
  pub layer_size : length c.layer ≡ 16
  pub layer : All IsData c.layer
  pub index : c.index < 128
  pub position : c.position < 2 ^ 32
  pub state : c.state < 128
  pub volume : c.volume < 128
  pub flags : c.flags < 128

-- The bytes behind the layer.
abbrev tail : Cue → List ℕ
tail c = c.index ∷ encode7bit (be32 c.position) ++ (c.state ∷ c.volume ∷ c.flags ∷ [])

-- The body of MEDIA_SYNC as a host writes it, with its 2.0.4 tail.
abbrev pub cue_body : Cue → List ℕ
cue_body c = c.layer ++ tail c

-- The packet that a master makes of it.
abbrev pub cue_packet : World → Node → Cue → MediaSyncPacket
cue_packet w m c = record {
  layer = layer_buffer (take 15 c.layer ++ 0 ∷ []);
  media_index = c.index;
  position_ms = c.position;
  state = c.state;
  mesh_timestamp = w.mesh_now;
  volume = c.volume;
  flags = c.flags;
  seq = u16 (m.media_seq + 1);
}

tail-IsData : (c : Cue) → CueIsValid c → All IsData (tail c)
tail-IsData c v = (
  v.index,
  All-append IsData (encode7bit (be32 c.position)) _ (encode7bit-IsData (be32 c.position))
      (v.state, (v.volume, (v.flags, tt))),
)

length-tail : (c : Cue) → length (tail c) ≡ 9
unfolding encode7bit
length-tail c = refl

take-append_le : (n k : ℕ) (xs ys : List ℕ) → length xs ≡ n + k → take n (xs ++ ys) ≡ take n xs
take-append_le zero k xs ys e = refl
take-append_le (suc n) k [] ys e = absurd (omega arith)
take-append_le (suc n) k (x ∷ xs) ys e = ap (λ l. x ∷ l) (take-append_le n k xs ys (omega arith))

drop-append_add : (xs ys : List ℕ) (n k : ℕ) → n ≡ length xs + k → drop n (xs ++ ys) ≡ drop k ys
drop-append_add [] ys n k e = ap (λ j. drop j ys) (omega arith)
drop-append_add (x ∷ xs) ys zero k e = absurd (omega arith)
drop-append_add (x ∷ xs) ys (suc n) k e = drop-append_add xs ys n k (omega arith)

-- The frame as its layer and the bytes around it.
frame-cue_body :
    (c : Cue) → frame 0x10 (cue_body c) ≡ 0xF0 ∷ 0x7D ∷ 0x10 ∷ c.layer ++ (tail c ++ (0xF7 ∷ []))
frame-cue_body c = ap (λ l. 0xF0 ∷ 0x7D ∷ 0x10 ∷ l) (append_assoc c.layer (tail c) (0xF7 ∷ []))

position-be32 :
    (n : ℕ)
    → n < 2 ^ 32
    → n / 16777216 % 256 * 16777216 + n / 65536 % 256 * 65536 + n / 256 % 256 * 256 + n % 256 ≡ n
position-be32 n h = omega (arith, h)

five_of_tail : (c : Cue) → take 5 (drop 1 (tail c ++ (0xF7 ∷ []))) ≡ encode7bit (be32 c.position)
unfolding encode7bit
five_of_tail c = refl

media_position-cue_body :
    (c : Cue)
    → CueIsValid c
    → media_position (0xF0 ∷ 0x7D ∷ 0x10 ∷ c.layer ++ (tail c ++ (0xF7 ∷ []))) ≡ c.position
media_position-cue_body c v =
    let rest = tail c ++ (0xF7 ∷ []) in
    let five : take 5 (drop 17 (c.layer ++ rest)) ≡ encode7bit (be32 c.position) =
      ap (take 5) (drop-append_add c.layer rest 17 1 (omega (arith, v.layer_size)))
      ∙ five_of_tail c in
    let four : decode7bit (take 5 (drop 17 (c.layer ++ rest))) ≡ be32 c.position =
      ap decode7bit five
      ∙ decode7bit-encode7bit (be32 c.position)
          (omega arith, (omega arith, (omega arith, (omega arith, tt)))) in
    ap (λ b. get_or b 0 0 * 16777216 + get_or b 1 0 * 65536 + get_or b 2 0 * 256 + get_or b 3 0)
      four
    ∙ position-be32 c.position v.position

low7_id : (n : ℕ) → n < 128 → low7 n ≡ n
low7_id n h = omega arith

-- The frame that a host sends reads as the cue.
media_packet-cue_body :
    (w : World) (m : Node) (c : Cue)
    → CueIsValid c
    → media_packet w 29 (frame 0x10 (cue_body c)) (u16 (m.media_seq + 1)) ≡ cue_packet w m c
unfolding media_packet encode7bit
media_packet-cue_body w m c v =
    let rest = tail c ++ (0xF7 ∷ []) in
    let at = λ (k : ℕ). get_or-append c.layer rest (16 + k) k (omega (arith, v.layer_size)) in
    ap (λ b. media_packet w 29 b (u16 (m.media_seq + 1))) (frame-cue_body c) ∙ λ i. record {
      layer = layer_buffer (take-append_le 15 1 c.layer rest v.layer_size i ++ 0 ∷ []);
      media_index = at 0 i;
      position_ms = media_position-cue_body c v i;
      state = at 6 i;
      mesh_timestamp = w.mesh_now;
      volume = (ap low7 (at 7) ∙ low7_id c.volume v.volume) i;
      flags = (ap low7 (at 8) ∙ low7_id c.flags v.flags) i;
      seq = u16 (m.media_seq + 1);
    }

at_nine : (c : Cue) → get_or (tail c ++ (0xF7 ∷ [])) 9 0 ≡ 0xF7
unfolding encode7bit
at_nine c = refl

one_relay :
    (w : World) (m : Node) (bytes : List ℕ)
    → m.sender_mode ≡ true
    → m.rf_simulation ≡ false
    → (media_sync w 29 bytes m).1
      ≡ relay broadcast_address (media_sync_bytes (media_packet w 29 bytes (u16 (m.media_seq + 1))))
        ∷ []
unfolding media_sync
one_relay w m bytes s f = rw (s, f) refl

handle_sysex_message-media_sync :
    (w : World) (m : Node) (c : Cue)
    → CueIsValid c
    → handle_sysex_message w 29 (frame 0x10 (cue_body c)) m
      ≡ media_sync w 29 (frame 0x10 (cue_body c)) m
unfolding handle_sysex_message command
handle_sysex_message-media_sync w m c v =
    let rest = tail c ++ (0xF7 ∷ []) in
    let last : get_or (frame 0x10 (cue_body c)) 28 0 ≡ 0xF7 =
      ap (λ b. get_or b 28 0) (frame-cue_body c)
      ∙ get_or-append c.layer rest 25 9 (omega (arith, v.layer_size))
      ∙ at_nine c in
    rw last refl

-- A master in sender mode, without RF simulation, answers with one broadcast of the cue.
pub relay-cue_body :
    (w : World) (m : Node) (c : Cue)
    → CueIsValid c
    → m.sender_mode ≡ true
    → m.rf_simulation ≡ false
    → (handle_sysex_message w 29 (frame 0x10 (cue_body c)) m).1
      ≡ relay broadcast_address (media_sync_bytes (cue_packet w m c)) ∷ []
relay-cue_body w m c v s f =
    ap (λ r. r.1) (handle_sysex_message-media_sync w m c v)
    ∙ (one_relay w m (frame 0x10 (cue_body c)) s f
        ∙ ap (λ p. relay broadcast_address (media_sync_bytes p) ∷ [])
            (media_packet-cue_body w m c v))
