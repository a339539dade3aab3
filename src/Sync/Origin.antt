-- ===== src/Sync/Origin.antt =====
-- The origin lock: which master a node follows, and when it may change.
use mathlib.Core.Bool.{false≢true}
use nowde.Prelude.{
  ℕ, ◌<◌, ◌≡◌, refl, ◌∙◌, ◌⊎◌, inl, inr, Bool, true, false, List, [], ◌∷◌, sub32, arith, if_cases,
  not, ◌&&◌, ltb,
}
use nowde.Config.{origin_lock_release_ms}
use nowde.Wire.{Mac, mac_equal}
use nowde.Wire.RoundTrip.{mac_equal-eq}
use nowde.Sync.{Follower, origin_accepts}

-- When a packet of `origin` may be acted on.
abbrev pub MayFollow : ℕ → Mac → Follower → Type 0
MayFollow now origin f =
    (f.lock.valid ≡ false)
    ⊎ (mac_equal f.lock.mac origin ≡ true)
    ⊎ ((f.lock.pinned ≡ false) × (origin_lock_release_ms < sub32 now f.lock.last_heard))

-- The lock after a packet of `origin` that was acted on.
abbrev pub Follows : ℕ → Mac → Follower → Follower → Type 0
Follows now origin f g =
    (g.lock.mac ≡ origin)
    × (g.lock.valid ≡ true)
    × (g.lock.last_heard ≡ now)
    × (g.lock.pinned ≡ f.lock.pinned)

-- A packet is accepted exactly when nobody is followed, when it is from the master that is
-- followed, or when that one is not pinned and has been silent for more than two seconds. An
-- accepted packet leaves the lock on its master, heard now, pinned or not as before; a refused one
-- changes nothing.
pub origin_accepts_lem :
    (now : ℕ) (origin : Mac) (f : Follower)
    → let after = origin_accepts now origin f in
      ((after.1 ≡ true) × MayFollow now origin f × Follows now origin f after.0)
      ⊎ ((after.1 ≡ false) × (MayFollow now origin f → ⊥) × (after.0 ≡ f))
unfolding origin_accepts
origin_accepts_lem now origin f =
    let P : Follower × Bool → Type 0 = λ r.
      ((r.1 ≡ true) × MayFollow now origin f × Follows now origin f r.0)
      ⊎ ((r.1 ≡ false) × (MayFollow now origin f → ⊥) × (r.0 ≡ f)) in
    if_cases P (not f.lock.valid) _ _
      (λ e. inl (refl, inl (ground arith), (refl, refl, refl, refl)))
      λ e.
        if_cases P (mac_equal f.lock.mac origin) _ _
          (λ m.
            inl (refl, inr (inl m), (mac_equal-eq f.lock.mac origin m, ground arith, refl, refl)))
          λ n.
            if_cases P
              (not f.lock.pinned && ltb origin_lock_release_ms (sub32 now f.lock.last_heard)) _ _
              (λ q. inl (refl, inr (inr (ground arith)), (refl, refl, refl, refl)))
              λ q. inr (refl, (λ h. ground arith), refl)

-- A packet of another master than the one before makes the gap counter start over; one of the
-- same master leaves everything but the time it was heard.
pub origin_accepts_anchor :
    (now : ℕ) (origin : Mac) (f : Follower)
    → (origin_accepts now origin f).1 ≡ true
    → ((origin_accepts now origin f).0.sync.have_seq ≡ false)
      ⊎ ((f.lock.valid ≡ true)
          × (f.lock.mac ≡ origin)
          × ((origin_accepts now origin f).0.sync ≡ f.sync))
unfolding origin_accepts
origin_accepts_anchor now origin f =
    let P : Follower × Bool → Type 0 = λ r.
      r.1 ≡ true
      → (r.0.sync.have_seq ≡ false)
        ⊎ ((f.lock.valid ≡ true) × (f.lock.mac ≡ origin) × (r.0.sync ≡ f.sync)) in
    if_cases P (not f.lock.valid) _ _ (λ e h. inl refl)
      λ e.
        if_cases P (mac_equal f.lock.mac origin) _ _
          (λ m h. inr (ground arith, mac_equal-eq f.lock.mac origin m, refl))
          λ n.
            if_cases P
              (not f.lock.pinned && ltb origin_lock_release_ms (sub32 now f.lock.last_heard)) _ _
              (λ q h. inl refl) λ q h. absurd (false≢true h)

-- Any packets, heard at any times.
unfoldable pub hear_all : List (ℕ × Mac) → Follower → Follower
hear_all [] f = f
hear_all ((now, origin) ∷ rest) f = hear_all rest (origin_accepts now origin f).0

-- One packet, under a pinned lock.
origin_accepts-pinned :
    (now : ℕ) (origin : Mac) (f : Follower)
    → f.lock.valid ≡ true
    → f.lock.pinned ≡ true
    → let g = (origin_accepts now origin f).0 in
      (g.lock.valid ≡ true) × (g.lock.pinned ≡ true) × (g.lock.mac ≡ f.lock.mac) × (g.sync ≡ f.sync)
unfolding origin_accepts
origin_accepts-pinned now origin f v p =
    let P : Follower × Bool → Type 0 = λ r.
      (r.0.lock.valid ≡ true)
      × (r.0.lock.pinned ≡ true)
      × (r.0.lock.mac ≡ f.lock.mac)
      × (r.0.sync ≡ f.sync) in
    if_cases P (not f.lock.valid) _ _ (λ e. absurd (ground arith))
      λ e.
        if_cases P (mac_equal f.lock.mac origin) _ _ (λ m. (v, p, refl, refl))
          λ n.
            if_cases P
              (not f.lock.pinned && ltb origin_lock_release_ms (sub32 now f.lock.last_heard)) _ _
              (λ q. absurd (ground arith)) λ q. (v, p, refl, refl)

-- A pinned lock is held through any packets and any silence.
pub hear_all_pinned :
    (heard : List (ℕ × Mac)) (f : Follower)
    → f.lock.valid ≡ true
    → f.lock.pinned ≡ true
    → ((hear_all heard f).lock.mac ≡ f.lock.mac) × ((hear_all heard f).sync ≡ f.sync)
unfolding hear_all
hear_all_pinned [] f v p = (refl, refl)
hear_all_pinned ((now, origin) ∷ rest) f v p =
    let (v', p', m, s) = origin_accepts-pinned now origin f v p in
    let (more, same) = hear_all_pinned rest (origin_accepts now origin f).0 v' p' in
    (more ∙ m, same ∙ s)
