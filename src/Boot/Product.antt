-- ===== src/Boot/Product.antt =====
-- main.cpp, `configureUsbDescriptors`: the name by which a host tells one node from another.
use nowde.Prelude.{
  ℕ, ◌+◌, ◌/◌, ◌%◌, ◌<◌, ◌≡◌, ap, List, [], ◌∷◌, ◌++◌, get_or, ltb, if◌then◌else◌, arith,
}
use nowde.Wire.{Mac}
use nowde.Tables.Fits.{MacFits}

-- `%02X`.
abbrev pub hex_digit : ℕ → ℕ
hex_digit d = if ltb d 10 then 48 + d else 55 + d

abbrev pub hex2 : ℕ → List ℕ
hex2 b = hex_digit (b / 16) ∷ hex_digit (b % 16) ∷ []

-- "Nowde - DDEEFF": the last three bytes of the address.
unfoldable pub product_name : Mac → List ℕ
product_name mac =
    b'N' ∷ b'o' ∷ b'w' ∷ b'd' ∷ b'e' ∷ b' ' ∷ b'-' ∷ b' ' ∷ hex2 mac.m3
    ++ (hex2 mac.m4 ++ hex2 mac.m5)

hex_digit-injective : (a b : ℕ) → a < 16 → b < 16 → hex_digit a ≡ hex_digit b → a ≡ b
hex_digit-injective a b l k e = ground arith

hex2-injective :
    (a b : ℕ)
    → a < 256
    → b < 256
    → hex_digit (a / 16) ≡ hex_digit (b / 16)
    → hex_digit (a % 16) ≡ hex_digit (b % 16)
    → a ≡ b
hex2-injective a b l k high low = omega (
  arith,
  hex_digit-injective (a / 16) (b / 16) (omega arith) (omega arith) high,
  hex_digit-injective (a % 16) (b % 16) (omega arith) (omega arith) low,
)

-- Two addresses of bytes with the same product name have the same last three bytes.
product_name-injective :
    (a b : Mac)
    → MacFits a
    → MacFits b
    → product_name a ≡ product_name b
    → (a.m3 ≡ b.m3) × (a.m4 ≡ b.m4) × (a.m5 ≡ b.m5)
unfolding product_name
product_name-injective a b f g e =
    let at : (i : ℕ) → get_or (product_name a) i 0 ≡ get_or (product_name b) i 0 =
      λ i. ap (λ s. get_or s i 0) e in
    (
      hex2-injective a.m3 b.m3 (omega (arith, f)) (omega (arith, g)) (at 8) (at 9),
      hex2-injective a.m4 b.m4 (omega (arith, f)) (omega (arith, g)) (at 10) (at 11),
      hex2-injective a.m5 b.m5 (omega (arith, f)) (omega (arith, g)) (at 12) (at 13),
    )
