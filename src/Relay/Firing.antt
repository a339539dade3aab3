-- ===== src/Relay/Firing.antt =====
-- When a pending forward goes out, and what goes out.
use nowde.Prelude.{
  ℕ, ◌+◌, ◌/◌, ◌^◌, ◌≤◌, ◌<◌, ◌≡◌, refl, true, false, List, [], ◌∷◌, All, u32, drop, if◌then◌else◌,
  arith,
}
use nowde.Wire.{mesh_relay_header}
use nowde.Wire.RoundTrip.{mesh_relay_header-mesh_relay_bytes}
use nowde.Relay.{PendingRelay, Relay, is_due, relay_frame, fire, process_pending_relays}

-- The frames of the due forwards, in table order.
abbrev pub due_frames : ℕ → List PendingRelay → List (List ℕ)
due_frames now [] = []
due_frames now (p ∷ ps) =
    if is_due now p then relay_frame p ∷ due_frames now ps else due_frames now ps

abbrev pub spent : ℕ → List PendingRelay → List PendingRelay
spent now [] = []
spent now (p ∷ ps) = (if is_due now p then record p { active = false } else p) ∷ spent now ps

fire_lem : (now : ℕ) (ps : List PendingRelay) → fire now ps ≡ (spent now ps, due_frames now ps)
unfolding fire
fire_lem now [] = refl
fire_lem now (p ∷ ps) = rw (fire_lem now ps) (ground arith)

spent-not_due : (now : ℕ) (ps : List PendingRelay) → All (λ p. is_due now p ≡ false) (spent now ps)
spent-not_due now [] = tt
spent-not_due now (p ∷ ps) = (ground arith, spent-not_due now ps)

spent-due_frames : (now : ℕ) (ps : List PendingRelay) → due_frames now (spent now ps) ≡ []
spent-due_frames now [] = refl
spent-due_frames now (p ∷ ps) = ground (arith, spent-due_frames now ps)

-- A poll broadcasts the frame of every forward that is due and of no other, in table order; the
-- forwards that went out are inactive after it, the others as they were, and a second poll at the
-- same time broadcasts nothing.
pub process_pending_relays_lem :
    (now : ℕ) (r : Relay)
    → let after = process_pending_relays now r in
      (after.1 ≡ due_frames now r.pending)
      × (after.0.pending ≡ spent now r.pending)
      × (after.0.origins ≡ r.origins)
      × ((process_pending_relays now after.0).1 ≡ [])
unfolding process_pending_relays
process_pending_relays_lem now r =
    let e = fire_lem now r.pending in
    (rw e, rw e, refl, rw (e, fire_lem now (spent now r.pending)) (spent-due_frames now r.pending))

-- `millis()` at time `t`, in milliseconds since boot.
abbrev pub millis_at : ℕ → ℕ
millis_at t = u32 t

-- A forward scheduled at time t with delay d, both in milliseconds since boot, while no wrap of
-- `millis()` falls between t and the poll: it is due at exactly the polls from t + d on.
pub is_due_iff :
    (t d poll : ℕ) (p : PendingRelay)
    → p.active ≡ true
    → p.send_time ≡ u32 (t + d)
    → t / 2 ^ 32 ≡ poll / 2 ^ 32
    → t / 2 ^ 32 ≡ (t + d) / 2 ^ 32
    → (t + d ≤ poll → is_due (millis_at poll) p ≡ true)
      × (poll < t + d → is_due (millis_at poll) p ≡ false)
is_due_iff t d poll p a s w w' = (λ h. ground arith, λ h. ground arith)

-- A forward that should go out just before `millis()` wraps and was not polled in time is due at
-- no poll after the wrap for 2 ^ 32 milliseconds.
pub is_due_after_wrap :
    (t d poll : ℕ) (p : PendingRelay)
    → p.send_time ≡ u32 (t + d)
    → poll / 2 ^ 32 ≡ (t + d) / 2 ^ 32 + 1
    → poll < t + d + 2 ^ 32
    → is_due (millis_at poll) p ≡ false
is_due_after_wrap t d poll p s w h = ground arith

-- The frame of a forward reads back as its origin, number and hop, and its packet verbatim.
pub relay_frame_lem :
    (p : PendingRelay)
    → p.seq < 2 ^ 16
    → (mesh_relay_header (relay_frame p) ≡ record { origin = p.origin; seq = p.seq; hop = p.hop })
      × (drop 10 (relay_frame p) ≡ p.payload)
relay_frame_lem p h =
    mesh_relay_header-mesh_relay_bytes (record { origin = p.origin; seq = p.seq; hop = p.hop })
      p.payload h
