-- ===== src/Prelude/Lists.antt =====
-- Lists measured and indexed by native numbers, under the library's names.
use Prim.Native.Nat.{ℕ, zero, suc, ◌+◌, ◌<◌}
use mathlib.Core.Path.{◌≡◌, refl, sym, ap, ◌∙◌}
use mathlib.Core.Logic.{◌≢◌, ∥∥₁_map}
use mathlib.Core.List.{List, [], ◌∷◌, ◌++◌, map, IsInfix, append_assoc}
use mathlib.Core.Option.{Option, none, some, some-injective}
use native.Mathlib.Omega.{arith}

module _ {ℓ} {A : Type ℓ} where
  abbrev pub length : List A → ℕ
  length [] = 0
  length (x ∷ xs) = suc (length xs)

  abbrev pub get_elem? : List A → ℕ → Option A
  get_elem? [] i = none
  get_elem? (x ∷ xs) zero = some x
  get_elem? (x ∷ xs) (suc i) = get_elem? xs i

  -- A write out of bounds changes nothing.
  abbrev pub set : List A → ℕ → A → List A
  set [] i v = []
  set (x ∷ xs) zero v = v ∷ xs
  set (x ∷ xs) (suc i) v = x ∷ set xs i v

  abbrev pub get_or : List A → ℕ → A → A
  get_or [] i d = d
  get_or (x ∷ xs) zero d = x
  get_or (x ∷ xs) (suc i) d = get_or xs i d

  abbrev pub take : ℕ → List A → List A
  take zero xs = []
  take (suc n) [] = []
  take (suc n) (x ∷ xs) = x ∷ take n xs

  abbrev pub drop : ℕ → List A → List A
  drop zero xs = xs
  drop (suc n) [] = []
  drop (suc n) (x ∷ xs) = drop n xs

  abbrev pub replicate : ℕ → A → List A
  replicate zero a = []
  replicate (suc n) a = a ∷ replicate n a

  -- A predicate of every element.
  abbrev pub All {κ} : (A → Type κ) → List A → Type κ
  All P [] = Unit
  All P (x ∷ xs) = P x × All P xs

module _ {ℓ} {A : Type ℓ} where
  pub length-append : (xs ys : List A) → length (xs ++ ys) ≡ length xs + length ys
  length-append [] ys = omega arith
  length-append (x ∷ xs) ys = omega (arith, length-append xs ys)

  pub append-nil : (xs : List A) → xs ++ [] ≡ xs
  append-nil [] = refl
  append-nil (x ∷ xs) = ap (λ t. x ∷ t) (append-nil xs)

  pub take-append-drop : (n : ℕ) (xs : List A) → take n xs ++ drop n xs ≡ xs
  take-append-drop zero xs = refl
  take-append-drop (suc n) [] = refl
  take-append-drop (suc n) (x ∷ xs) = ap (λ t. x ∷ t) (take-append-drop n xs)

  pub length-set : (xs : List A) (i : ℕ) (v : A) → length (set xs i v) ≡ length xs
  length-set [] i v = refl
  length-set (x ∷ xs) zero v = refl
  length-set (x ∷ xs) (suc i) v = ap suc (length-set xs i v)

  pub get_elem?-set_self :
      (xs : List A) (i : ℕ) (v : A) → i < length xs → get_elem? (set xs i v) i ≡ some v
  get_elem?-set_self [] i v h = elim h [ ]
  get_elem?-set_self (x ∷ xs) zero v h = refl
  get_elem?-set_self (x ∷ xs) (suc i) v h = get_elem?-set_self xs i v (omega arith)

  pub get_elem?-set_ne :
      (xs : List A) (i j : ℕ) (v : A) → i ≢ j → get_elem? (set xs i v) j ≡ get_elem? xs j
  get_elem?-set_ne [] i j v h = refl
  get_elem?-set_ne (x ∷ xs) zero zero v h = absurd (h refl)
  get_elem?-set_ne (x ∷ xs) zero (suc j) v h = refl
  get_elem?-set_ne (x ∷ xs) (suc i) zero v h = refl
  get_elem?-set_ne (x ∷ xs) (suc i) (suc j) v h = get_elem?-set_ne xs i j v (λ e. h (ap suc e))

  pub All-append {κ} : (P : A → Type κ) (xs ys : List A) → All P xs → All P ys → All P (xs ++ ys)
  All-append P [] ys h k = k
  All-append P (x ∷ xs) ys h k = (h.0, All-append P xs ys h.1 k)

-- The entry at an index, changed in place.
unfoldable pub update {ℓ} : {A : Type ℓ} → (A → A) → List A → ℕ → List A
update f [] k = []
update f (x ∷ t) zero = f x ∷ t
update f (x ∷ t) (suc k) = x ∷ update f t k

pub update-get_elem? {ℓ} :
    {A : Type ℓ} (f : A → A) (t : List A) (k : ℕ) (a : A)
    → get_elem? t k ≡ some a
    → update f t k ≡ set t k (f a)
unfolding update
update-get_elem? f [] k a g = refl
update-get_elem? f (x ∷ t) zero a g = ap (λ y. f y ∷ t) (some-injective x a g)
update-get_elem? f (x ∷ t) (suc k) a g = ap (λ u. x ∷ u) (update-get_elem? f t k a g)

pub All-set {ℓ κ} :
    {A : Type ℓ} (P : A → Type κ) (t : List A) (k : ℕ) (v : A) → All P t → P v → All P (set t k v)
All-set P [] k v h p = tt
All-set P (x ∷ t) zero v h p = (p, h.1)
All-set P (x ∷ t) (suc k) v h p = (h.0, All-set P t k v h.1 p)

pub All-update {ℓ κ} :
    {A : Type ℓ} (P : A → Type κ) (f : A → A) (t : List A) (k : ℕ)
    → ((a : A) → P a → P (f a))
    → All P t
    → All P (update f t k)
unfolding update
All-update P f [] k g h = tt
All-update P f (x ∷ t) zero g h = (g x h.0, h.1)
All-update P f (x ∷ t) (suc k) g h = (h.0, All-update P f t k g h.1)

pub length-update {ℓ} :
    {A : Type ℓ} (f : A → A) (t : List A) (k : ℕ) → length (update f t k) ≡ length t
unfolding update
length-update f [] k = refl
length-update f (x ∷ t) zero = refl
length-update f (x ∷ t) (suc k) = ap suc (length-update f t k)

pub All-replicate {ℓ κ} :
    {A : Type ℓ} (P : A → Type κ) (k : ℕ) (a : A) → P a → All P (replicate k a)
All-replicate P zero a p = tt
All-replicate P (suc k) a p = (p, All-replicate P k a p)

-- What stands in one piece in a list stands so in every longer one.
module _ {ℓ} {A : Type ℓ} (xs ys zs : List A) where
  pub infix-append_right : IsInfix xs ys → IsInfix xs (zs ++ ys)
  infix-append_right h = ∥∥₁_map h λ u. (
    zs ++ u.0,
    u.1,
    ap (λ l. l ++ u.1) (append_assoc zs u.0 xs)
        ∙ (append_assoc zs (u.0 ++ xs) u.1 ∙ ap (λ l. zs ++ l) u.2),
  )

  pub infix-append_left : IsInfix xs ys → IsInfix xs (ys ++ zs)
  infix-append_left h =
      ∥∥₁_map h λ u. (u.0, u.1 ++ zs, sym (append_assoc (u.0 ++ xs) u.1 zs) ∙ ap (λ l. l ++ zs) u.2)

pub get_elem?-set_here {ℓ} :
    {A : Type ℓ} (t : List A) (k : ℕ) (a v : A)
    → get_elem? t k ≡ some a
    → get_elem? (set t k v) k ≡ some v
get_elem?-set_here [] k a v g = absurd (cc)
get_elem?-set_here (x ∷ t) zero a v g = refl
get_elem?-set_here (x ∷ t) (suc k) a v g = get_elem?-set_here t k a v g

pub get_elem?-map {ℓ κ} :
    {A : Type ℓ} {B : Type κ} (f : A → B) (t : List A) (k : ℕ) (a : A)
    → get_elem? t k ≡ some a
    → get_elem? (map f t) k ≡ some (f a)
get_elem?-map f [] k a g = absurd (cc)
get_elem?-map f (x ∷ t) zero a g = ap (λ y. some (f y)) (some-injective x a g)
get_elem?-map f (x ∷ t) (suc k) a g = get_elem?-map f t k a g
