-- ===== src/Prelude/Cstring.antt =====
-- The C string functions that the source calls on its fixed `char` buffers.
use Prim.Native.Nat.{ℕ, zero, suc, ◌≤◌}
use native.Mathlib.Omega.{arith}
use mathlib.Core.Bool.{Bool, true, ◌&&◌, ◌||◌}
use mathlib.Core.List.{List, [], ◌∷◌}
use mathlib.Core.Path.{◌≡◌, refl, ap}
use nowde.Prelude.Lists.{length}
use nowde.Prelude.Tests.{◌==◌, if◌then◌else◌, if_both}

-- `strncmp(a, b, n) == 0`: equal up to a shared NUL, or over the first `n` characters. A missing
-- character, which no call here reaches, reads as NUL.
unfoldable pub strn_eq : ℕ → List ℕ → List ℕ → Bool
strn_eq zero a b = true
strn_eq (suc n) [] [] = true
strn_eq (suc n) [] (y ∷ b) = y == 0
strn_eq (suc n) (x ∷ a) [] = x == 0
strn_eq (suc n) (x ∷ a) (y ∷ b) = x == y && (x == 0 || strn_eq n a b)

-- What `strncpy(dest, src, n)` leaves in the `n` bytes of `dest`: up to the NUL, then zeros.
unfoldable pub strncpy : ℕ → List ℕ → List ℕ
strncpy zero src = []
strncpy (suc n) [] = 0 ∷ strncpy n []
strncpy (suc n) (c ∷ src) = c ∷ strncpy n (if c == 0 then [] else src)

-- `strnlen(s, n)`.
unfoldable pub strnlen : List ℕ → ℕ → ℕ
strnlen s zero = 0
strnlen [] (suc n) = 0
strnlen (c ∷ s) (suc n) = if c == 0 then 0 else suc (strnlen s n)

pub strnlen-le : (s : List ℕ) (n : ℕ) → strnlen s n ≤ n
unfolding strnlen
strnlen-le s zero = omega arith
strnlen-le [] (suc n) = omega arith
strnlen-le (c ∷ s) (suc n) =
    if_both (λ v. v ≤ suc n) (c == 0) _ _ (omega arith) (omega (arith, strnlen-le s n))

pub length-strncpy : (n : ℕ) (s : List ℕ) → length (strncpy n s) ≡ n
unfolding strncpy
length-strncpy zero s = refl
length-strncpy (suc n) [] = ap suc (length-strncpy n [])
length-strncpy (suc n) (c ∷ s) = ap suc (length-strncpy n _)
