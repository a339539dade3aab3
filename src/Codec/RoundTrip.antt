-- ===== src/Codec/RoundTrip.antt =====
-- What the codec promises: it decodes what it encodes, its output fits MIDI data bytes, and its
-- length is known.
use Prim.Native.Nat.{min}
use native.Mathlib.Nat.{pow-suc}
use mathlib.Core.Path.{ap₂}
use nowde.Prelude.{
  ℕ, zero, suc, ◌+◌, ◌-◌, ◌/◌, ◌≤◌, ◌<◌, ◌^◌, ◌≡◌, refl, ap, ◌∙◌, List, [], ◌∷◌, ◌++◌, map, length,
  take, drop, take-append-drop, length-append, All, All-append, arith,
}
use nowde.Codec.{low7, msb_byte, encode_chunks, encode7bit, restore, decode_chunks, decode7bit}

abbrev pub IsByte : ℕ → Type 0
IsByte b = b < 256

-- A MIDI data byte: the top bit is clear.
abbrev pub IsData : ℕ → Type 0
IsData b = b < 128

restore-msb_byte : (c : List ℕ) → All IsByte c → restore (msb_byte c) (map low7 c) ≡ c
unfolding restore msb_byte
restore-msb_byte [] h = refl
restore-msb_byte (b ∷ c) h = ground (arith, restore-msb_byte c h.1)

module _ (f : ℕ → ℕ) (g : List ℕ → List ℕ) (g_nil : g [] ≡ []) where
  -- The bytes of one chunk stand apart from those of the next.
  take-chunk :
      (n : ℕ) (xs : List ℕ) → take n (map f (take n xs) ++ g (drop n xs)) ≡ map f (take n xs)
  take-chunk zero xs = refl
  take-chunk (suc n) [] = rw g_nil
  take-chunk (suc n) (x ∷ xs) = ap (λ t. f x ∷ t) (take-chunk n xs)

  drop-chunk : (n : ℕ) (xs : List ℕ) → drop n (map f (take n xs) ++ g (drop n xs)) ≡ g (drop n xs)
  drop-chunk zero xs = refl
  drop-chunk (suc n) [] = rw g_nil
  drop-chunk (suc n) (x ∷ xs) = drop-chunk n xs

pub length-drop : (n : ℕ) (xs : List ℕ) → length (drop n xs) ≡ length xs - n
length-drop zero xs = omega arith
length-drop (suc n) [] = omega arith
length-drop (suc n) (x ∷ xs) = omega (arith, length-drop n xs)

pub All-drop : (n : ℕ) (xs : List ℕ) → All IsByte xs → All IsByte (drop n xs)
All-drop zero xs h = h
All-drop (suc n) [] h = tt
All-drop (suc n) (x ∷ xs) h = All-drop n xs h.1

pub All-take : (n : ℕ) (xs : List ℕ) → All IsByte xs → All IsByte (take n xs)
All-take zero xs h = tt
All-take (suc n) [] h = tt
All-take (suc n) (x ∷ xs) h = (h.0, All-take n xs h.1)

length-map : (f : ℕ → ℕ) (xs : List ℕ) → length (map f xs) ≡ length xs
length-map f [] = refl
length-map f (x ∷ xs) = ap suc (length-map f xs)

length-take : (n : ℕ) (xs : List ℕ) → length (take n xs) ≡ min n (length xs)
length-take zero xs = omega arith
length-take (suc n) [] = omega arith
length-take (suc n) (x ∷ xs) = omega (arith, length-take n xs)

encode_chunks-nil : (f : ℕ) → encode_chunks f [] ≡ []
unfolding encode_chunks
encode_chunks-nil zero = refl
encode_chunks-nil (suc f) = refl

length-encode_chunks :
    (f : ℕ) (xs : List ℕ)
    → length xs ≤ f
    → length (encode_chunks f xs) ≡ length xs + (length xs + 6) / 7
unfolding encode_chunks
length-encode_chunks zero [] h = omega arith
length-encode_chunks zero (x ∷ xs) h = absurd (omega arith)
length-encode_chunks (suc f) [] h = omega arith
length-encode_chunks (suc f) (x ∷ xs) h =
    let chunk = take 7 (x ∷ xs) in
    let rest = drop 7 (x ∷ xs) in
    omega (
      arith,
      length-append (map low7 chunk) (encode_chunks f rest),
      length-map low7 chunk,
      length-take 7 (x ∷ xs),
      length-drop 7 (x ∷ xs),
      length-encode_chunks f rest (omega (arith, length-drop 7 (x ∷ xs))),
    )

-- The size that every caller reserves: one byte more for each seven begun.
pub length-encode7bit : (xs : List ℕ) → length (encode7bit xs) ≡ length xs + (length xs + 6) / 7
unfolding encode7bit
length-encode7bit xs = length-encode_chunks (length xs) xs (omega arith)

decode-encode_chunks :
    (f k : ℕ) (xs : List ℕ)
    → length xs ≤ f
    → f ≤ k
    → All IsByte xs
    → decode_chunks k (encode_chunks f xs) ≡ xs
unfolding encode_chunks decode_chunks
decode-encode_chunks zero zero [] h p b = refl
decode-encode_chunks zero (suc k) [] h p b = refl
decode-encode_chunks zero k (x ∷ xs) h p b = absurd (omega arith)
decode-encode_chunks (suc f) zero xs h p b = absurd (omega arith)
decode-encode_chunks (suc f) (suc k) [] h p b = refl
decode-encode_chunks (suc f) (suc k) (x ∷ xs) h p b =
    let c = take 7 (x ∷ xs) in
    let rest = drop 7 (x ∷ xs) in
    let g = encode_chunks f in
    ap₂ (λ u v. restore (msb_byte c) u ++ decode_chunks k v)
      (take-chunk low7 g (encode_chunks-nil f) 7 (x ∷ xs))
      (drop-chunk low7 g (encode_chunks-nil f) 7 (x ∷ xs))
    ∙ ap₂ ◌++◌ (restore-msb_byte c (All-take 7 (x ∷ xs) b)) (
        decode-encode_chunks f k rest (omega (arith, length-drop 7 (x ∷ xs))) (omega arith)
          (All-drop 7 (x ∷ xs) b))
    ∙ take-append-drop 7 (x ∷ xs)

-- Decoding gives back every list of bytes that was encoded.
pub decode7bit-encode7bit : (xs : List ℕ) → All IsByte xs → decode7bit (encode7bit xs) ≡ xs
unfolding encode7bit decode7bit
decode7bit-encode7bit xs b =
    decode-encode_chunks (length xs) (length (encode_chunks (length xs) xs)) xs (omega arith)
      (omega (arith, length-encode_chunks (length xs) xs)) b

msb_byte-lt : (n : ℕ) (xs : List ℕ) → msb_byte (take n xs) < 2 ^ n
unfolding msb_byte
msb_byte-lt zero [] = omega arith
msb_byte-lt zero (x ∷ xs) = omega arith
msb_byte-lt (suc n) [] = omega (arith, msb_byte-lt n [], pow-suc 2 n)
msb_byte-lt (suc n) (x ∷ xs) = omega (arith, msb_byte-lt n xs, pow-suc 2 n)

map-low7-IsData : (xs : List ℕ) → All IsData (map low7 xs)
map-low7-IsData [] = tt
map-low7-IsData (x ∷ xs) = (omega arith, map-low7-IsData xs)

encode_chunks-IsData : (f : ℕ) (xs : List ℕ) → All IsData (encode_chunks f xs)
unfolding encode_chunks
encode_chunks-IsData zero xs = tt
encode_chunks-IsData (suc f) [] = tt
encode_chunks-IsData (suc f) (x ∷ xs) = (
  msb_byte-lt 7 (x ∷ xs),
  All-append IsData (map low7 (take 7 (x ∷ xs))) (encode_chunks f (drop 7 (x ∷ xs)))
      (map-low7-IsData (take 7 (x ∷ xs))) (encode_chunks-IsData f (drop 7 (x ∷ xs))),
)

-- Nothing that is encoded can be taken for a MIDI status byte, F0 and F7 among them.
pub encode7bit-IsData : (xs : List ℕ) → All IsData (encode7bit xs)
unfolding encode7bit
encode7bit-IsData xs = encode_chunks-IsData (length xs) xs
