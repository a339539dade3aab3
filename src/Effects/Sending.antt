-- ===== src/Effects/Sending.antt =====
-- sysex.cpp, `relaySend`: when a frame is offered again, and when it is given up.
use nowde.Prelude.{
  ℕ, zero, suc, ◌+◌, ◌-◌, ◌≤◌, ◌<◌, ◌≡◌, ap, sym, ◌∙◌, Bool-cases, false, ltb, inl, inr, arith,
}
use nowde.Effects.{SendResult, sent, no_mem, failed, relay_send, retry, count_of}

-- How `k` calls ended, when `tries` more were allowed after the first `calls`.
abbrev Ends : (ℕ → SendResult) → ℕ → ℕ → SendResult × ℕ → Type 0
Ends result tries calls (r, k) =
    (calls ≤ k)
    × (k ≤ calls + tries)
    × (r ≡ result (k - 1))
    × ((i : ℕ) → calls ≤ suc i → suc i < k → result i ≡ no_mem)
    × (r ≡ no_mem → k ≡ calls + tries)

le_of_not : (i calls : ℕ) → ltb calls (suc i) ≡ false → calls ≤ suc i → i ≡ calls - 1
le_of_not i calls l x = ground arith

retry-Ends :
    (result : ℕ → SendResult) (tries calls : ℕ) (r : SendResult)
    → 0 < calls
    → r ≡ result (calls - 1)
    → Ends result tries calls (retry result tries calls r)
unfolding retry
retry-Ends result zero calls sent p e =
    (omega arith, omega arith, e, (λ i a b. absurd (omega arith)), (λ z. omega arith))
retry-Ends result zero calls no_mem p e =
    (omega arith, omega arith, e, (λ i a b. absurd (omega arith)), (λ z. omega arith))
retry-Ends result zero calls failed p e =
    (omega arith, omega arith, e, (λ i a b. absurd (omega arith)), (λ z. omega arith))
retry-Ends result (suc tries) calls sent p e =
    (omega arith, omega arith, e, (λ i a b. absurd (omega arith)), (λ z. absurd (ground arith)))
retry-Ends result (suc tries) calls failed p e =
    (omega arith, omega arith, e, (λ i a b. absurd (omega arith)), (λ z. absurd (ground arith)))
retry-Ends result (suc tries) calls no_mem p e =
    let (a, b, c, d, f) =
      retry-Ends result tries (suc calls) (result calls) (omega arith) (ap result (omega arith)) in
    (
      omega (arith, a),
      omega (arith, b),
      c,
      (λ i x y. elim (Bool-cases (ltb calls (suc i))) [
        | inl l ↦ d i (ground arith) y
        | inr l ↦ ap result (omega (arith, le_of_not i calls l x)) ∙ sym e
      ]),
      (λ m. omega (arith, f m)),
    )

-- `relaySend` makes one call to four. Each but the last found the queue full; it gives up on a full
-- queue only after the fourth; what it returns is what the last call returned.
pub relay_send_lem :
    (result : ℕ → SendResult) (dropped : ℕ)
    → let (r, calls, count) = relay_send result dropped in
      (1 ≤ calls)
      × (calls ≤ 4)
      × (r ≡ result (calls - 1))
      × ((i : ℕ) → suc i < calls → result i ≡ no_mem)
      × (r ≡ no_mem → calls ≡ 4)
      × (r ≡ sent → count ≡ dropped)
unfolding relay_send
relay_send_lem result dropped =
    let (a, b, c, d, e) =
      retry-Ends result 3 1 (result 0) (omega arith) (ap result (omega arith)) in
    (
      a,
      omega (arith, b),
      c,
      (λ i l. d i (omega arith) l),
      (λ z. omega (arith, e z)),
      (λ z. ap (count_of dropped) z),
    )
