-- ===== src/Slots.antt =====
-- The fixed tables of the firmware (senders, receivers, relay origins) are searched by one loop:
-- the first entry that fits wins, and the first free slot is remembered on the way.
use nowde.Prelude.{
  ℕ, suc, ◌+◌, ◌≡◌, refl, ap, ◌∙◌, ◌⊎◌, inl, inr, Bool, true, false, Option, none, some, List, [],
  ◌∷◌, get_elem?, take, if◌then◌else◌, Bool-cases, All, arith,
}

pub data Slot : Type 0 where
  found : ℕ → Slot
  free : ℕ → Slot
  full : Slot

-- What the loop leaves when no entry fitted.
abbrev free_or_full : Option ℕ → Slot
free_or_full none = full
free_or_full (some i) = free i

abbrev note_free : Bool → ℕ → Option ℕ → Option ℕ
note_free is_free i (some j) = some j
note_free true i none = some i
note_free false i none = none

module _ {ℓ} {A : Type ℓ} (fits is_free : A → Bool) where
  -- The loop from index `i` on, with the free slot met so far.
  unfoldable pub find_slot : List A → ℕ → Option ℕ → Slot
  find_slot [] i slot = free_or_full slot
  find_slot (a ∷ rest) i slot =
      if fits a then found i else find_slot rest (suc i) (note_free (is_free a) i slot)

  abbrev pub Misses : List A → Type 0
  Misses t = All (λ a. fits a ≡ false) t

  first_free : List A → ℕ → Option ℕ → Option ℕ
  first_free [] i slot = slot
  first_free (a ∷ rest) i slot = first_free rest (suc i) (note_free (is_free a) i slot)

  first_free-some : (t : List A) (i j : ℕ) → first_free t i (some j) ≡ some j
  unfolding first_free
  first_free-some [] i j = refl
  first_free-some (a ∷ t) i j = first_free-some t (suc i) j

  -- A free slot at `k`, or none.
  abbrev IsFirstFree : List A → ℕ → Option ℕ → Type ℓ
  IsFirstFree t i r =
      (r ≡ none)
      ⊎ ((k : ℕ) × (a : A) × (r ≡ some (i + k)) × (get_elem? t k ≡ some a) × (is_free a ≡ true))

  first_free-none : (t : List A) (i : ℕ) → IsFirstFree t i (first_free t i none)
  unfolding first_free
  first_free-none [] i = inl refl
  first_free-none (a ∷ t) i = elim (Bool-cases (is_free a)) [
    | inl e ↦ inr (0, a, rw e (first_free-some t (suc i) i ∙ ap some (omega arith)), refl, e)
    | inr e ↦ rw e (elim (first_free-none t (suc i)) [
      | inl n ↦ inl n
      | inr (k, b, r, g, f) ↦ inr (suc k, b, r ∙ ap some (omega arith), g, f)
    ])
  ]

  abbrev Hit : List A → ℕ → Slot → Type ℓ
  Hit t i s =
      (k : ℕ) × (a : A) × (s ≡ found (i + k))
      × (get_elem? t k ≡ some a)
      × (fits a ≡ true)
      × Misses (take k t)

  find_slot_from :
      (t : List A) (i : ℕ) (slot : Option ℕ)
      → Hit t i (find_slot t i slot)
        ⊎ (Misses t × (find_slot t i slot ≡ free_or_full (first_free t i slot)))
  unfolding find_slot first_free
  find_slot_from [] i slot = inr (tt, refl)
  find_slot_from (a ∷ t) i slot = elim (Bool-cases (fits a)) [
    | inl e ↦ inl (0, a, rw e (ap found (omega arith)), refl, e, tt)
    | inr e ↦ rw e (elim (find_slot_from t (suc i) (note_free (is_free a) i slot)) [
      | inl (k, b, r, g, f, m) ↦ inl (suc k, b, r ∙ ap found (omega arith), g, f, (e, m))
      | inr (m, r) ↦ inr ((refl, m), r)
    ])
  ]

  -- The three answers of a search from index 0: the first fitting entry; no such entry, and a free slot;
  -- no such entry, and (as far as the loop knows) no free slot.
  pub find_slot-cases :
      (t : List A)
      → ((k : ℕ) × (a : A) × (find_slot t 0 none ≡ found k)
          × (get_elem? t k ≡ some a)
          × (fits a ≡ true)
          × Misses (take k t))
        ⊎ ((k : ℕ) × (a : A) × (find_slot t 0 none ≡ free k)
            × (get_elem? t k ≡ some a)
            × (is_free a ≡ true)
            × Misses t)
        ⊎ ((find_slot t 0 none ≡ full) × Misses t)
  find_slot-cases t = elim (find_slot_from t 0 none) [
    | inl (k, a, r, g, f, m) ↦ inl (k, a, r ∙ ap found (omega arith), g, f, m)
    | inr (m, r) ↦ inr (elim (first_free-none t 0) [
      | inl n ↦ inr (r ∙ ap free_or_full n, m)
      | inr (k, a, n, g, f) ↦ inl (k, a, r ∙ ap free_or_full n ∙ ap free (omega arith), g, f, m)
    ])
  ]
