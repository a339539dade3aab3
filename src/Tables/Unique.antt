-- ===== src/Tables/Unique.antt =====
-- No master and no slave is ever listed twice.
use mathlib.Core.Option.{some-injective}
use mathlib.Core.Bool.{false≢true}
use nowde.Prelude.{
  ℕ, zero, suc, ◌≡◌, refl, ap, ◌∙◌, sym, ◌≢◌, ◌⊎◌, inl, inr, Bool, true, not, some, List, [], ◌∷◌,
  length, get_elem?, set, ltb, update-get_elem?, arith, if_cases,
}
use nowde.Wire.{Mac, receiver_info, receiver_info_min_len}
use nowde.Wire.RoundTrip.{mac_equal-eq}
use nowde.Effects.{Effect}
use nowde.Slots.{Misses, find_slot-cases}
use nowde.Tables.{
  SenderEntry, ReceiverEntry, is_sender, is_receiver, seen_sender, handle_sender_beacon,
  seen_receiver, handle_receiver_info, refresh_receiver, new_receiver,
}

module _ {A : Type 0} (lists : Mac → A → Bool) where
  -- No address is listed in two slots.
  abbrev pub Unique : List A → Type 0
  Unique t =
      (i j : ℕ) (a b : A) (m : Mac)
      → get_elem? t i ≡ some a
      → get_elem? t j ≡ some b
      → lists m a ≡ true
      → lists m b ≡ true
      → i ≡ j

  get_elem?-set-cases :
      (t : List A) (k j : ℕ) (v b : A)
      → get_elem? (set t k v) j ≡ some b
      → ((j ≡ k) × (b ≡ v)) ⊎ ((j ≢ k) × (get_elem? t j ≡ some b))
  get_elem?-set-cases [] k j v b e = absurd (cc)
  get_elem?-set-cases (x ∷ t) zero zero v b e = inl (refl, sym (some-injective v b e))
  get_elem?-set-cases (x ∷ t) zero (suc j) v b e = inr (omega arith, e)
  get_elem?-set-cases (x ∷ t) (suc k) zero v b e = inr (omega arith, e)
  get_elem?-set-cases (x ∷ t) (suc k) (suc j) v b e = elim (get_elem?-set-cases t k j v b e) [
    | inl (p, q) ↦ inl (ap suc p, q)
    | inr (p, q) ↦ inr ((λ h. p (omega arith)), q)
  ]

  -- A slot may be given anew to an address that no other slot lists.
  Unique-set :
      (t : List A) (k : ℕ) (v : A)
      → Unique t
      → ((j : ℕ) (b : A) (m : Mac)
          → j ≢ k
          → get_elem? t j ≡ some b
          → lists m v ≡ true
          → lists m b ≡ true
          → ⊥)
      → Unique (set t k v)
  Unique-set t k v u alone i j a b m gi gj li lj = elim (get_elem?-set-cases t k i v a gi) [
    | inl (p, q) ↦ elim (get_elem?-set-cases t k j v b gj) [
      | inl (p', q') ↦ omega arith
      | inr (p', g') ↦ absurd (alone j b m p' g' (ap (lists m) (sym q) ∙ li) lj)
    ]
    | inr (p, g) ↦ elim (get_elem?-set-cases t k j v b gj) [
      | inl (p', q') ↦ absurd (alone i a m p g (ap (lists m) (sym q') ∙ lj) li)
      | inr (p', g') ↦ u i j a b m g g' li lj
    ]
  ]

  Misses-get :
      (m : Mac) (is_free : A → Bool) (t : List A) (j : ℕ) (b : A)
      → Misses (lists m) is_free t
      → get_elem? t j ≡ some b
      → lists m b ≡ true
      → ⊥
  Misses-get m is_free [] j b q g l = cc
  Misses-get m is_free (x ∷ t) zero b q g l =
      false≢true (sym q.0 ∙ ap (lists m) (some-injective x b g) ∙ l)
  Misses-get m is_free (x ∷ t) (suc j) b q g l = Misses-get m is_free t j b q.1 g l

-- If no master was listed twice before a beacon is heard, none is after it.
pub handle_sender_beacon-Unique :
    (now : ℕ) (src : Mac) (t : List SenderEntry)
    → Unique is_sender t
    → Unique is_sender ((handle_sender_beacon now src t).0)
unfolding handle_sender_beacon seen_sender
handle_sender_beacon-Unique now src t u =
    elim (find_slot-cases (is_sender src) (λ e. not e.active) t) [
      | inl (k, a, r, g, f, m) ↦ rw r (
          rw (update-get_elem? (λ e. record e { last_seen = now }) t k a g) (
            Unique-set is_sender t k (record a { last_seen = now }) u
              (λ j b n p gb la lb. p (sym (u k j a b n g gb la lb)))))
      | inr (inl (k, a, r, g, f, m)) ↦ rw r (
          Unique-set is_sender t k (record { mac = src; last_seen = now; active = true }) u
            (λ j b n p gb la lb.
              Misses-get is_sender src (λ e. not e.active) t j b m gb
                (ap (λ x. is_sender x b) (mac_equal-eq src n la) ∙ lb)))
      | inr (inr (r, m)) ↦ rw r u
    ]

-- If no slave was listed twice before a report is heard, of whatever length, none is after it.
pub handle_receiver_info-Unique :
    (now : ℕ) (src : Mac) (bytes : List ℕ) (t : List ReceiverEntry)
    → Unique is_receiver t
    → Unique is_receiver ((handle_receiver_info now src bytes t).0)
unfolding handle_receiver_info seen_receiver refresh_receiver new_receiver
handle_receiver_info-Unique now src bytes t u =
    if_cases {A = List ReceiverEntry × List Effect} (λ v. Unique is_receiver (v.0))
      (ltb (length bytes) receiver_info_min_len) _ _ (λ e. u)
      λ e. (elim (find_slot-cases (is_receiver src) (λ e. not e.active) t) [
        | inl (k, a, r, g, f, m) ↦ rw r (
            rw
              (update-get_elem? (refresh_receiver now (length bytes) (receiver_info bytes)) t k a g)
              (Unique-set is_receiver t k
                (refresh_receiver now (length bytes) (receiver_info bytes) a) u
                (λ j b n p gb la lb. p (sym (u k j a b n g gb la lb)))))
        | inr (inl (k, a, r, g, f, m)) ↦ rw r (
            Unique-set is_receiver t k (new_receiver now (length bytes) src (receiver_info bytes)) u
              (λ j b n p gb la lb.
                Misses-get is_receiver src (λ e. not e.active) t j b m gb
                  (ap (λ x. is_receiver x b) (mac_equal-eq src n la) ∙ lb)))
        | inr (inr (r, m)) ↦ rw r u
      ])
