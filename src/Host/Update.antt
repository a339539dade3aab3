-- ===== src/Host/Update.antt =====
-- A whole firmware update over SysEx, from OTA_BEGIN to OTA_END.
use nowde.Prelude.{
  ℕ, ◌+◌, ◌-◌, ◌^◌, ◌≤◌, ◌<◌, ◌≡◌, refl, ap, ◌∙◌, ◌≢◌, true, false, List, [], ◌∷◌, ◌++◌, length,
  length-append, get_or, All, arith, ◌==◌, if◌then◌else◌, u8, u32,
}
use mathlib.Core.List.{append_assoc}
use nowde.Codec.{encode7bit, decode7bit}
use nowde.Codec.RoundTrip.{IsByte, decode7bit-encode7bit}
use nowde.Wire.RoundTrip.{get_or-append}
use nowde.Replies.{frame, be32}
use nowde.Effects.{Effect, update_abort, update_begin, update_write, update_end, restart}
use nowde.Node.{Node, World}
use nowde.Ota.{ota_begin, ota_end, ota_ack, config_error, firmware_size}
use nowde.Ota.Transfer.{chunk_frame, chunk_intact, chunk_damaged, advance}
use nowde.Sysex.{handle_sysex_message, command, command_of}
use nowde.Host.Frames.{handle_frames}

when_long :
    (w : World) (c : ℕ) (body : List ℕ) (n : Node) (len : ℕ)
    → 4 ≤ len
    → get_or (frame c body) (len - 1) 0 ≡ 0xF7
    → handle_sysex_message w len (frame c body) n ≡ command w len (frame c body) n (command_of c)
unfolding handle_sysex_message
when_long w c body n len h e = ground arith

-- A frame of at most 255 bytes gets to the function of its command.
pub frame_handled :
    (w : World) (c : ℕ) (body : List ℕ) (n : Node)
    → length (frame c body) ≤ 255
    → handle_sysex_message w (u8 (length (frame c body))) (frame c body) n
      ≡ command w (length (frame c body)) (frame c body) n (command_of c)
unfolding handle_sysex_message
frame_handled w c body n h =
    let end : get_or (frame c body) (length (frame c body) - 1) 0 ≡ 0xF7 =
      get_or-append (0xF0 ∷ 0x7D ∷ c ∷ body) (0xF7 ∷ []) _ 0
        (omega (arith, length-append body (0xF7 ∷ []))) in
    let same : u8 (length (frame c body)) ≡ length (frame c body) = omega (arith, h) in
    rw same (
      when_long w c body n (length (frame c body)) (omega (arith, length-append body (0xF7 ∷ [])))
        end)

-- What arrives between OTA_BEGIN and OTA_END: a chunk that decodes to as many bytes as it announces, or
-- one that does not. (There is no check sum: the bytes of the first kind are the ones that arrive.)
pub data Piece : Type 0 where
  sized : ℕ → List ℕ → Piece
  missized : ℕ → ℕ → List ℕ → Piece

abbrev pub piece_frame : Piece → List ℕ
piece_frame (sized seq raw) = chunk_frame seq (length raw) (encode7bit raw)
piece_frame (missized seq want encoded) = chunk_frame seq want encoded

abbrev pub piece_frames : List Piece → List (List ℕ)
piece_frames [] = []
piece_frames (p ∷ ps) = piece_frame p ∷ piece_frames ps

-- The bytes of the chunks that have their length, in order.
abbrev pub image : List Piece → List ℕ
image [] = []
image (sized seq raw ∷ ps) = raw ++ image ps
image (missized seq want encoded ∷ ps) = image ps

-- What the node does about a piece: it writes one that has its length, and acknowledges it, or
-- complains.
abbrev pub piece_effects : List Piece → List Effect
piece_effects [] = []
piece_effects (sized seq raw ∷ ps) = update_write raw ∷ ota_ack seq 0 ∷ piece_effects ps
piece_effects (missized seq want encoded ∷ ps) = ota_ack seq 1 ∷ piece_effects ps

-- A frame is short enough for the length byte, a chunk that has its length is of bytes and not empty
-- and the updater takes it, and the other kind decodes to another number of bytes than it announces.
abbrev pub PieceIsValid : World → Piece → Type 0
PieceIsValid w (sized seq raw) =
    All IsByte raw
    × (0 < length raw)
    × (w.update_written raw ≡ length raw)
    × (length (chunk_frame seq (length raw) (encode7bit raw)) ≤ 255)
PieceIsValid w (missized seq want encoded) =
    (length (decode7bit encoded) ≢ want) × (length (chunk_frame seq want encoded) ≤ 255)

handle_frames-cons :
    (w : World) (f : List ℕ) (fs : List (List ℕ)) (n : Node) (r : Node × List Effect)
    → handle_sysex_message w (u8 (length f)) f n ≡ r
    → handle_frames w (f ∷ fs) n
      ≡ (let (last, more) = handle_frames w fs r.0 in (last, r.1 ++ more))
unfolding handle_frames
handle_frames-cons w f fs n r e =
    ap (λ q. (let (last, more) = handle_frames w fs q.0 in (last, q.1 ++ more))) e

pieces_handled :
    (w : World) (ps : List Piece) (fs : List (List ℕ)) (n : Node)
    → n.ota.in_progress ≡ true
    → n.ota.received < 2 ^ 32
    → All (PieceIsValid w) ps
    → handle_frames w (piece_frames ps ++ fs) n ≡ (
        let (last, more) = handle_frames w fs (advance (length (image ps)) n) in
        (last, piece_effects ps ++ more))
unfolding handle_frames command
pieces_handled w [] fs n e b v =
    ap (λ k. handle_frames w fs (record n { ota = record n.ota { received = k } }))
      (omega (arith, b))
pieces_handled w (sized seq raw ∷ ps) fs n e b v =
    let (bytes, some_bytes, taken, short) = v.0 in
    let f = chunk_frame seq (length raw) (encode7bit raw) in
    handle_frames-cons w f (piece_frames ps ++ fs) n _ (
      frame_handled w 0x0C (seq ∷ length raw ∷ encode7bit raw) n short
      ∙ chunk_intact w seq raw n e bytes some_bytes taken)
    ∙ ap (λ r. (r.0, update_write raw ∷ ota_ack seq 0 ∷ r.1))
        (pieces_handled w ps fs (advance (length raw) n) e (omega arith) v.1)
    ∙ ap
        (λ k.
          (let (last, more) =
              handle_frames w fs (record n { ota = record n.ota { received = k } }) in
            (last, update_write raw ∷ ota_ack seq 0 ∷ piece_effects ps ++ more)))
        (omega (arith, length-append raw (image ps)))
pieces_handled w (missized seq want encoded ∷ ps) fs n e b v =
    let f = chunk_frame seq want encoded in
    handle_frames-cons w f (piece_frames ps ++ fs) n _ (
      frame_handled w 0x0C (seq ∷ want ∷ encoded) n v.0.1
      ∙ chunk_damaged w seq want encoded n e v.0.0)
    ∙ ap (λ r. (r.0, ota_ack seq 1 ∷ r.1)) (pieces_handled w ps fs n e b v.1)

abbrev pub begin_frame : ℕ → List ℕ
begin_frame size = frame 0x05 (encode7bit (be32 size))

abbrev pub end_frame : List ℕ
end_frame = frame 0x07 []

firmware_size-be32 : (n : ℕ) → n < 2 ^ 32 → firmware_size (be32 n) ≡ n
firmware_size-be32 n h = omega (arith, h)

abbrev session : World → ℕ → Node → Node
session w size n = record n {
  ota = record { in_progress = true; total = size; received = 0; start_time = w.now };
}

abbrev pub aborted : World → List Effect
aborted w = if w.update_running then update_abort ∷ [] else []

begin_handled :
    (w : World) (size : ℕ) (n : Node)
    → w.update_begins ≡ true
    → size < 2 ^ 32
    → handle_sysex_message w (u8 (length (begin_frame size))) (begin_frame size) n
      ≡ (session w size n, aborted w ++ (update_begin size ∷ []))
unfolding handle_sysex_message command ota_begin encode7bit
begin_handled w size n b h =
    let four =
      decode7bit-encode7bit (be32 size)
        (omega arith, (omega arith, (omega arith, (omega arith, tt)))) in
    let known : firmware_size (decode7bit (encode7bit (be32 size))) ≡ size =
      ap firmware_size four ∙ firmware_size-be32 size h in
    rw b (ap (λ k. (session w k n, aborted w ++ (update_begin k ∷ []))) known)

-- How an update ends.
abbrev pub verdict : World → ℕ → ℕ → List Effect
verdict w received size =
    if received == size
    then if w.update_ends then update_end ∷ restart ∷ [] else update_end ∷ config_error ∷ []
    else update_abort ∷ config_error ∷ []

end_handled :
    (w : World) (n : Node)
    → n.ota.in_progress ≡ true
    → ((handle_frames w (end_frame ∷ []) n).1 ≡ verdict w n.ota.received n.ota.total)
      × ((handle_frames w (end_frame ∷ []) n).0.ota.in_progress ≡ false)
unfolding handle_frames handle_sysex_message command ota_end
end_handled w n e = (ground arith, ground arith)

-- A whole update, of a size and an image below 2^32 bytes, from any state of the node, whatever its role
-- and its mode: OTA_BEGIN, numbered chunks, of which any number may arrive with another decoded length
-- than the one they announce and be sent again, and OTA_END, in frames of at most 255 bytes, with an
-- updater that starts and takes every chunk it is given. What is written is the chunks that have their
-- announced length, byte for byte as they arrived and in order; each of them is acknowledged with 0, each
-- other one refused with 1; and at the end the image is installed and the chip restarts exactly if the
-- length of all that was written is the size announced and the updater accepts it. Otherwise the host
-- gets an error, and an image of another length is aborted.
pub update_lem :
    (w : World) (size : ℕ) (ps : List Piece) (n : Node)
    → w.update_begins ≡ true
    → size < 2 ^ 32
    → length (image ps) < 2 ^ 32
    → All (PieceIsValid w) ps
    → let after = handle_frames w (begin_frame size ∷ piece_frames ps ++ end_frame ∷ []) n in
      (after.1
        ≡ aborted w
          ++ (update_begin size ∷ (piece_effects ps ++ verdict w (length (image ps)) size)))
      × (after.0.ota.in_progress ≡ false)
update_lem w size ps n b h l v =
    let s = session w size n in
    let total = advance (length (image ps)) s in
    let (last, closed) = end_handled w total refl in
    let run =
      handle_frames-cons w (begin_frame size) (piece_frames ps ++ end_frame ∷ []) n _
        (begin_handled w size n b h)
      ∙ ap (λ r. (r.0, (aborted w ++ (update_begin size ∷ [])) ++ r.1))
          (pieces_handled w ps (end_frame ∷ []) s refl (omega arith) v) in
    let same : verdict w (u32 (0 + length (image ps))) size ≡ verdict w (length (image ps)) size =
      ap (λ k. verdict w k size) (omega (arith, l)) in
    (
      ap (λ r. r.1) run
          ∙ append_assoc (aborted w) (update_begin size ∷ []) _
          ∙ ap (λ t. aborted w ++ (update_begin size ∷ (piece_effects ps ++ t))) (last ∙ same),
      ap (λ r. r.0.ota.in_progress) run ∙ closed,
    )
