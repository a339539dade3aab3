-- ===== src/Boot/Layer.antt =====
-- The layer comes back from the store as it was.
use nowde.Prelude.{
  ℕ, zero, suc, ◌≤◌, ◌≡◌, refl, ap, ◌∙◌, sym, ◌⊎◌, inl, inr, true, false, some, List, [], ◌∷◌, ◌++◌,
  length, length-append, take, strncpy, strnlen, strnlen-le, length-strncpy, ◌==◌, if◌then◌else◌,
  arith, Bool-cases,
}
use nowde.Tables.{layer_buffer}
use nowde.Boot.{Build, c_string, load_layer, boot_layer}

take-strncpy : (n : ℕ) (x : List ℕ) → take n (strncpy (suc n) x) ≡ strncpy n x
unfolding strncpy
take-strncpy zero x = refl
take-strncpy (suc n) [] = ap (λ t. 0 ∷ t) (take-strncpy n [])
take-strncpy (suc n) (c ∷ x) = ap (λ t. c ∷ t) (take-strncpy n _)

is_nul : (c : ℕ) → c == 0 ≡ true → 0 ≡ c
is_nul c e = ground arith

kept_char : (n c : ℕ) (x : List ℕ) → c == 0 ≡ false → strncpy (suc n) (c ∷ x) ≡ c ∷ strncpy n x
unfolding strncpy
kept_char n c x e = rw e refl

-- A copy of what is before the NUL of a copy is that copy.
strncpy-strnlen :
    (n : ℕ) (x : List ℕ) → strncpy n (take (strnlen (strncpy n x) n) (strncpy n x)) ≡ strncpy n x
unfolding strncpy strnlen
strncpy-strnlen zero x = refl
strncpy-strnlen (suc n) [] = refl
strncpy-strnlen (suc n) (c ∷ x) = elim (Bool-cases (c == 0)) [
  | inl e ↦ rw e (ap (λ k. k ∷ strncpy n []) (is_nul c e))
  | inr e ↦ rw e (
      kept_char n c (take (strnlen (strncpy n x) n) (strncpy n x)) e
      ∙ ap (λ t. c ∷ t) (strncpy-strnlen n x))
]

strnlen-nul : (n : ℕ) (b : List ℕ) → length b ≡ n → strnlen (b ++ 0 ∷ []) (suc n) ≡ strnlen b n
unfolding strnlen
strnlen-nul zero [] e = refl
strnlen-nul zero (x ∷ b) e = absurd (omega arith)
strnlen-nul (suc n) [] e = absurd (omega arith)
strnlen-nul (suc n) (x ∷ b) e =
    ap (λ k. if x == 0 then 0 else suc k) (strnlen-nul n b (omega arith))

take-prefix : (k : ℕ) (b c : List ℕ) → k ≤ length b → take k (b ++ c) ≡ take k b
take-prefix zero b c h = refl
take-prefix (suc k) [] c h = absurd (omega arith)
take-prefix (suc k) (x ∷ b) c h = ap (λ t. x ∷ t) (take-prefix k b c (omega arith))

layer_buffer-c_string : (x : List ℕ) → layer_buffer (c_string (layer_buffer x)) ≡ layer_buffer x
layer_buffer-c_string x =
    let b = strncpy 15 x in
    let full : layer_buffer x ≡ b ++ 0 ∷ [] = ap (λ t. t ++ 0 ∷ []) (take-strncpy 15 x) in
    let text : c_string (b ++ 0 ∷ []) ≡ take (strnlen b 15) b =
      ap (λ k. take k (b ++ 0 ∷ [])) (strnlen-nul 15 b (length-strncpy 15 x))
      ∙ take-prefix (strnlen b 15) b (0 ∷ [])
          (omega (arith, strnlen-le b 15, length-strncpy 15 x)) in
    ap (λ t. layer_buffer (c_string t)) full
    ∙ ap layer_buffer text
    ∙ ap (λ t. t ++ 0 ∷ []) (take-strncpy 15 (take (strnlen b 15) b) ∙ strncpy-strnlen 15 x)
    ∙ sym full

length-take-of : (k : ℕ) (b : List ℕ) → k ≤ length b → length (take k b) ≡ k
length-take-of zero b h = refl
length-take-of (suc k) [] h = absurd (omega arith)
length-take-of (suc k) (x ∷ b) h = ap suc (length-take-of k b (omega arith))

length-layer_buffer : (x : List ℕ) → length (layer_buffer x) ≡ 16
length-layer_buffer x =
    ap (λ t. length (t ++ 0 ∷ [])) (take-strncpy 15 x)
    ∙ omega (arith, length-append (strncpy 15 x) (0 ∷ []), length-strncpy 15 x)

length-c_string : (b : List ℕ) → 16 ≤ length b → length (c_string b) ≡ strnlen b 16
length-c_string b h = length-take-of (strnlen b 16) b (omega (arith, strnlen-le b 16, h))

empty_string :
    (x : List ℕ) → length (c_string (layer_buffer x)) == 0 ≡ true → strnlen (layer_buffer x) 16 ≡ 0
empty_string x e =
    sym (length-c_string (layer_buffer x) (omega (arith, length-layer_buffer x))) ∙ sym (is_nul _ e)

-- A layer that is saved and not empty is the one that the next boot subscribes to.
pub boot_layer-c_string :
    (b : Build) (x : List ℕ)
    → (strnlen (layer_buffer x) 16 ≡ 0)
      ⊎ (layer_buffer x ≡ boot_layer b (some (c_string (layer_buffer x))))
unfolding boot_layer load_layer
boot_layer-c_string b x =
    let layer = c_string (layer_buffer x) in
    elim (Bool-cases (length layer == 0)) [
      | inl e ↦ inl (empty_string x e)
      | inr e ↦
          inr (
            sym (ap (λ q. layer_buffer (if q then b.layer else layer)) e ∙ layer_buffer-c_string x))
    ]
