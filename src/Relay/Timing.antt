-- ===== src/Relay/Timing.antt =====
-- What a pending forward adds to the broadcasts of a node while its mesh task polls, and when.
use mathlib.Core.List.{append_assoc}
use mathlib.Core.Option.{some-injective}
use nowde.Prelude.{
  ℕ, zero, suc, ◌+◌, ◌≤◌, ◌<◌, ◌≡◌, refl, sym, ap, ◌∙◌, true, false, List, [], ◌∷◌, ◌++◌, some,
  get_elem?, set, if◌then◌else◌, arith, Bool-cases, inl, inr,
}
use nowde.Relay.{PendingRelay, Relay, is_due, relay_frame, process_pending_relays}
use nowde.Relay.Firing.{due_frames, spent, process_pending_relays_lem}

-- Frames with the time at which they are handed to `relaySend`.
abbrev pub at_time : ℕ → List (List ℕ) → List (ℕ × List ℕ)
at_time now [] = []
at_time now (f ∷ fs) = (now, f) ∷ at_time now fs

-- All that polls at the times `ts` broadcast.
unfoldable pub broadcasts : List ℕ → Relay → List (ℕ × List ℕ)
broadcasts [] r = []
broadcasts (now ∷ ts) r =
    let (after, frames) = process_pending_relays now r in at_time now frames ++ broadcasts ts after

-- The tables with the forward of entry `i` cancelled.
abbrev pub without : ℕ → PendingRelay → Relay → Relay
without i p r = record r { pending = set r.pending i (record p { active = false }) }

-- Times that do not go back, each at most `period` after the one before.
abbrev pub Paced : ℕ → ℕ → List ℕ → Type 0
Paced period start [] = Unit
Paced period start (t ∷ ts) = (start ≤ t) × (t ≤ start + period) × Paced period t ts

-- The last of the times, `start` if there is none.
abbrev pub end_of : ℕ → List ℕ → ℕ
end_of start [] = start
end_of start (t ∷ ts) = end_of t ts

-- `with_it` is `rest` with one element more.
abbrev pub Adds {ℓ} : {A : Type ℓ} → A → List A → List A → Type ℓ
Adds {A} a rest with_it =
    (before : List A) × (after : List A) × (rest ≡ before ++ after)
    × (with_it ≡ before ++ (a ∷ after))

off : PendingRelay → PendingRelay
off p = record p { active = false }

-- A poll at which the entry is not due does not tell the two tables apart.
not_due :
    (now i : ℕ) (ps : List PendingRelay) (p : PendingRelay)
    → get_elem? ps i ≡ some p
    → is_due now p ≡ false
    → (due_frames now ps ≡ due_frames now (set ps i (off p)))
      × (get_elem? (spent now ps) i ≡ some p)
      × (spent now (set ps i (off p)) ≡ set (spent now ps) i (off p))
unfolding off
not_due now i [] p e d = absurd (cc)
not_due now zero (q ∷ ps) p e d =
    let same = some-injective q p e in rw same (rw d (refl, refl, refl))
not_due now (suc i) (q ∷ ps) p e d =
    let (frames, kept, rest) = not_due now i ps p e d in
    (
      ap (λ fs. if is_due now q then relay_frame q ∷ fs else fs) frames,
      kept,
      ap (λ t. (if is_due now q then record q { active = false } else q) ∷ t) rest,
    )

-- A poll at which it is due adds its frame, and leaves the same table.
due :
    (now i : ℕ) (ps : List PendingRelay) (p : PendingRelay)
    → get_elem? ps i ≡ some p
    → is_due now p ≡ true
    → Adds (relay_frame p) (due_frames now (set ps i (off p))) (due_frames now ps)
      × (spent now ps ≡ spent now (set ps i (off p)))
unfolding off
due now i [] p e d = absurd (cc)
due now zero (q ∷ ps) p e d =
    let same = some-injective q p e in rw same (rw d (([], due_frames now ps, refl, refl), refl))
due now (suc i) (q ∷ ps) p e d =
    let ((before, after, rest, all), table) = due now i ps p e d in
    (
      elim (Bool-cases (is_due now q)) [
        | inl y ↦ rw y (
          relay_frame q ∷ before,
          after,
          ap (λ l. relay_frame q ∷ l) rest,
          ap (λ l. relay_frame q ∷ l) all,
        )
        | inr y ↦ rw y (before, after, rest, all)
      ],
      ap (λ t. (if is_due now q then record q { active = false } else q) ∷ t) table,
    )

-- The broadcasts, from the pending forwards alone.
sends : List ℕ → List PendingRelay → List (ℕ × List ℕ)
sends [] ps = []
sends (now ∷ ts) ps = at_time now (due_frames now ps) ++ sends ts (spent now ps)

broadcasts-sends : (ts : List ℕ) (r : Relay) → broadcasts ts r ≡ sends ts r.pending
unfolding broadcasts sends
broadcasts-sends [] r = refl
broadcasts-sends (now ∷ ts) r =
    let (frames, pending, _, _) = process_pending_relays_lem now r in
    ap (λ fs. at_time now fs ++ broadcasts ts (process_pending_relays now r).0) frames
    ∙ ap (λ l. at_time now (due_frames now r.pending) ++ l)
        (broadcasts-sends ts (process_pending_relays now r).0 ∙ ap (sends ts) pending)

at_time-append :
    (now : ℕ) (xs ys : List (List ℕ)) → at_time now (xs ++ ys) ≡ at_time now xs ++ at_time now ys
at_time-append now [] ys = refl
at_time-append now (x ∷ xs) ys = ap (λ l. (now, x) ∷ l) (at_time-append now xs ys)

-- At a time that is not before the forward's and at most `period` after it.
abbrev pub SentOnce : ℕ → PendingRelay → List (ℕ × List ℕ) → List (ℕ × List ℕ) → Type 0
SentOnce period p rest with_it =
    (t : ℕ) × (p.send_time ≤ t) × (t ≤ p.send_time + period) × Adds (t, relay_frame p) rest with_it

-- At the poll that sends it.
sends-now :
    (now : ℕ) (ts : List ℕ) (p : PendingRelay) (i : ℕ) (ps : List PendingRelay)
    → get_elem? ps i ≡ some p
    → is_due now p ≡ true
    → Adds (now, relay_frame p) (sends (now ∷ ts) (set ps i (off p))) (sends (now ∷ ts) ps)
unfolding sends
sends-now now ts p i ps e d =
    let ((before, after, rest, all), table) = due now i ps p e d in
    let more = sends ts (spent now ps) in
    (
      at_time now before,
      at_time now after ++ more,
      ap (λ t. at_time now (due_frames now (set ps i (off p))) ++ sends ts t) (sym table)
          ∙ ap (λ fs. at_time now fs ++ more) rest
          ∙ ap (λ l. l ++ more) (at_time-append now before after)
          ∙ append_assoc (at_time now before) (at_time now after) more,
      ap (λ fs. at_time now fs ++ more) all
          ∙ ap (λ l. l ++ more) (at_time-append now before (relay_frame p ∷ after))
          ∙ append_assoc (at_time now before) ((now, relay_frame p) ∷ at_time now after) more,
    )

sends_once :
    (i period : ℕ) (ts : List ℕ) (start : ℕ) (ps : List PendingRelay) (p : PendingRelay)
    → get_elem? ps i ≡ some p
    → p.active ≡ true
    → Paced period start ts
    → start ≤ p.send_time
    → p.send_time < end_of start ts
    → SentOnce period p (sends ts (set ps i (off p))) (sends ts ps)
unfolding sends
sends_once i period [] start ps p e a paced early late = absurd (omega (arith, early, late))
sends_once i period (now ∷ ts) start ps p e a (after, soon, paced) early late =
    elim (Bool-cases (is_due now p)) [
      | inr waits ↦
          let before : now < p.send_time = ground arith in
          let (frames, kept, rest) = not_due now i ps p e waits in
          let (t, l, k, (xs, ys, others, all)) =
            sends_once i period ts now (spent now ps) p kept a paced (omega (arith, before)) late in
          let first = at_time now (due_frames now ps) in
          (
            t,
            l,
            k,
            (
              first ++ xs,
              ys,
              ap (λ fs. at_time now fs ++ sends ts (spent now (set ps i (off p)))) (sym frames)
                  ∙ ap (λ q. first ++ sends ts q) rest
                  ∙ ap (λ l. first ++ l) others
                  ∙ sym (append_assoc first xs ys),
              ap (λ l. first ++ l) all ∙ sym (append_assoc first xs ((t, relay_frame p) ∷ ys)),
            ),
          )
      | inl goes ↦
          let reached : p.send_time ≤ now = ground arith in
          (now, reached, omega (arith, soon, early), sends-now now ts p i ps e goes)
    ]

-- From a time that is not after the entry's on.
pub broadcasts_once :
    (i period : ℕ) (ts : List ℕ) (start : ℕ) (r : Relay) (p : PendingRelay)
    → get_elem? r.pending i ≡ some p
    → p.active ≡ true
    → Paced period start ts
    → start ≤ p.send_time
    → p.send_time < end_of start ts
    → SentOnce period p (broadcasts ts (without i p r)) (broadcasts ts r)
unfolding off
broadcasts_once i period ts start r p e a paced early late =
    rw (broadcasts-sends ts r, broadcasts-sends ts (without i p r))
      (sends_once i period ts start r.pending p e a paced early late)
