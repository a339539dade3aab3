-- ===== src/Ota/Transfer.antt =====
-- The acknowledged transfer of a firmware image.
use nowde.Prelude.{
  ℕ, ◌+◌, ◌-◌, ◌<◌, ◌≡◌, refl, ap, ◌∙◌, ◌≢◌, ◌⊎◌, true, false, ◌&&◌, ◌||◌, not, List, [], ◌∷◌, ◌++◌,
  length, length-append, take, drop, All, arith, if_cases, leb, ◌==◌, if◌then◌else◌, u32,
}
use nowde.Codec.{encode7bit, decode7bit}
use nowde.Codec.RoundTrip.{IsByte, decode7bit-encode7bit}
use nowde.Effects.{Effect, update_abort, update_write, update_end, restart}
use nowde.Node.{Node, World}
use nowde.Replies.{frame}
use nowde.Ota.{ota_data_acked, ota_end, ota_ack, config_error}

-- The frame of a host for the chunk `seq`: it announces `want` bytes and carries `encoded`.
abbrev pub chunk_frame : ℕ → ℕ → List ℕ → List ℕ
chunk_frame seq want encoded = frame 0x0C (seq ∷ want ∷ encoded)

take-length-append : (xs ys : List ℕ) → take (length xs) (xs ++ ys) ≡ xs
take-length-append [] ys = refl
take-length-append (x ∷ xs) ys = ap (λ u. x ∷ u) (take-length-append xs ys)

-- The handler finds the data that the frame carries.
pub encoded-chunk_frame :
    (seq want : ℕ) (encoded : List ℕ)
    → take (length (chunk_frame seq want encoded) - 6) (drop 5 (chunk_frame seq want encoded))
      ≡ encoded
encoded-chunk_frame seq want encoded =
    ap (λ k. take k (encoded ++ 0xF7 ∷ [])) (omega (arith, length-append encoded (0xF7 ∷ [])))
    ∙ take-length-append encoded (0xF7 ∷ [])

-- The session after `k` more bytes were written.
abbrev pub advance : ℕ → Node → Node
advance k n = record n { ota = record n.ota { received = u32 (n.ota.received + k) } }

-- The answer to a chunk, by the bytes that its data decodes to.
abbrev pub answer : World → ℕ → ℕ → List ℕ → Node → Node × List Effect
answer w seq want decoded n =
    if not (length decoded == want) || want == 0
    then (n, ota_ack seq 1 ∷ [])
    else if not (w.update_written decoded == length decoded)
    then (
      record n { ota = record n.ota { in_progress = false } },
      update_write decoded ∷ update_abort ∷ ota_ack seq 2 ∷ [],
    )
    else (advance (length decoded) n, update_write decoded ∷ ota_ack seq 0 ∷ [])

chunk_frame_is_long :
    (seq want : ℕ) (encoded : List ℕ) → leb 6 (length (chunk_frame seq want encoded)) ≡ true
chunk_frame_is_long seq want encoded = let k = length-append encoded (0xF7 ∷ []) in ground arith

ota_data_acked-chunk_frame :
    (w : World) (seq want : ℕ) (encoded : List ℕ) (n : Node)
    → n.ota.in_progress ≡ true
    → ota_data_acked w (length (chunk_frame seq want encoded)) (chunk_frame seq want encoded) n
      ≡ answer w seq want (decode7bit encoded) n
unfolding ota_data_acked
ota_data_acked-chunk_frame w seq want encoded n p = rw (chunk_frame_is_long seq want encoded) (
    if_cases (λ v. v ≡ answer w seq want (decode7bit encoded) n) (not (n.ota.in_progress && true)) _
      _ (λ k. absurd (ground arith))
      λ k. ap (λ d. answer w seq want (decode7bit d) n) (encoded-chunk_frame seq want encoded))

-- In a session, a chunk of one byte or more that arrives whole, and that the updater takes whole, is
-- written byte for byte, counted, and acknowledged with 0.
pub chunk_intact :
    (w : World) (seq : ℕ) (raw : List ℕ) (n : Node)
    → n.ota.in_progress ≡ true
    → All IsByte raw
    → 0 < length raw
    → w.update_written raw ≡ length raw
    → ota_data_acked w
        (length (chunk_frame seq (length raw) (encode7bit raw)))
        (chunk_frame seq (length raw) (encode7bit raw))
        n
      ≡ (advance (length raw) n, update_write raw ∷ ota_ack seq 0 ∷ [])
chunk_intact w seq raw n p b l u =
    ota_data_acked-chunk_frame w seq (length raw) (encode7bit raw) n p
    ∙ ap (λ d. answer w seq (length raw) d n) (decode7bit-encode7bit raw b)
    ∙ if_cases (λ v. v ≡ (advance (length raw) n, update_write raw ∷ ota_ack seq 0 ∷ []))
        (not (length raw == length raw) || length raw == 0) _ _ (λ e. absurd (ground arith))
        λ e.
          if_cases (λ v. v ≡ (advance (length raw) n, update_write raw ∷ ota_ack seq 0 ∷ []))
            (not (w.update_written raw == length raw)) _ _ (λ k. absurd (ground arith)) λ k. refl

-- In a session, a chunk whose data decodes to another number of bytes than it announces is not
-- written, changes nothing, and is reported with 1.
pub chunk_damaged :
    (w : World) (seq want : ℕ) (encoded : List ℕ) (n : Node)
    → n.ota.in_progress ≡ true
    → length (decode7bit encoded) ≢ want
    → ota_data_acked w (length (chunk_frame seq want encoded)) (chunk_frame seq want encoded) n
      ≡ (n, ota_ack seq 1 ∷ [])
chunk_damaged w seq want encoded n p d =
    ota_data_acked-chunk_frame w seq want encoded n p
    ∙ if_cases (λ v. v ≡ (n, ota_ack seq 1 ∷ []))
        (not (length (decode7bit encoded) == want) || want == 0) _ _ (λ e. refl)
        λ e. absurd (ground arith)

-- OTA_END closes the session. The chip restarts only if as many bytes as OTA_BEGIN announced were
-- received and the updater accepts the image; otherwise the host gets an error, and an image of the
-- wrong size is aborted.
pub ota_end_lem :
    (w : World) (n : Node)
    → n.ota.in_progress ≡ true
    → ((ota_end w n).0.ota.in_progress ≡ false)
      × (((n.ota.received ≡ n.ota.total)
            × (w.update_ends ≡ true)
            × ((ota_end w n).1 ≡ update_end ∷ restart ∷ []))
          ⊎ ((n.ota.received ≡ n.ota.total)
              × (w.update_ends ≡ false)
              × ((ota_end w n).1 ≡ update_end ∷ config_error ∷ []))
          ⊎ ((n.ota.received ≢ n.ota.total) × ((ota_end w n).1 ≡ update_abort ∷ config_error ∷ [])))
unfolding ota_end
ota_end_lem w n p = (ground arith, ground arith)
