-- ===== src/Tables/Aging.antt =====
-- A table that only loses entries lists no address twice.
use mathlib.Core.Option.{some-injective}
use nowde.Prelude.{
  ℕ, zero, suc, ◌≡◌, refl, ap, ◌∙◌, Bool, true, false, ◌&&◌, some, List, [], ◌∷◌, get_elem?, ltb,
  sub32, if_cases, arith,
}
use nowde.Config.{sender_timeout_ms}
use nowde.Effects.{Effect}
use nowde.Wire.{Mac}
use nowde.Tables.{
  SenderEntry, ReceiverEntry, is_sender, is_receiver, cleanup_sender_table, cleanup_receiver_table,
  age_receiver,
}
use nowde.Tables.Unique.{Unique}

module _ {A : Type 0} (lists : Mac → A → Bool) where
  -- What an entry lists, the entry before it listed too.
  abbrev Loses : A → A → Type 0
  Loses old new = (m : Mac) → lists m new ≡ true → lists m old ≡ true

  -- Entry by entry.
  abbrev pub LosesAll : List A → List A → Type 0
  LosesAll t t' =
      (i : ℕ) (a : A)
      → get_elem? t' i ≡ some a
      → (old : A) × (get_elem? t i ≡ some old) × Loses old a

  LosesAll-cons :
      (old new : A) (t t' : List A) → Loses old new → LosesAll t t' → LosesAll (old ∷ t) (new ∷ t')
  LosesAll-cons old new t t' h k zero a g =
      (old, refl, λ m l. h m (ap (lists m) (some-injective new a g) ∙ l))
  LosesAll-cons old new t t' h k (suc i) a g = k i a g

  pub LosesAll-Unique : (t t' : List A) → LosesAll t t' → Unique lists t → Unique lists t'
  LosesAll-Unique t t' h u i j a b m gi gj li lj =
      let (a', ga, la) = h i a gi in
      let (b', gb, lb) = h j b gj in u i j a' b' m ga gb (la m li) (lb m lj)

cleanup_sender_table-LosesAll :
    (now : ℕ) (t : List SenderEntry) → LosesAll is_sender t ((cleanup_sender_table now t).0)
unfolding cleanup_sender_table
cleanup_sender_table-LosesAll now [] = λ i a g. absurd (cc)
cleanup_sender_table-LosesAll now (e ∷ t) =
    let rest = cleanup_sender_table-LosesAll now t in
    if_cases {A = List SenderEntry × List Effect} (λ v. LosesAll is_sender (e ∷ t) (v.0))
      (e.active && ltb sender_timeout_ms (sub32 now e.last_seen)) _ _
      (λ h. LosesAll-cons is_sender e (record e { active = false }) t _ (λ m l. absurd (cc)) rest)
      λ h. LosesAll-cons is_sender e e t _ (λ m l. l) rest

-- If no master was listed twice before a cleanup, none is after it.
pub cleanup_sender_table-Unique :
    (now : ℕ) (t : List SenderEntry)
    → Unique is_sender t
    → Unique is_sender ((cleanup_sender_table now t).0)
cleanup_sender_table-Unique now t u =
    LosesAll-Unique is_sender t _ (cleanup_sender_table-LosesAll now t) u

age_receiver-Loses : (now : ℕ) (e : ReceiverEntry) → Loses is_receiver e (age_receiver now e)
unfolding age_receiver
age_receiver-Loses now e m l = ground arith

cleanup_receiver_table-LosesAll :
    (now : ℕ) (t : List ReceiverEntry) → LosesAll is_receiver t ((cleanup_receiver_table now t).0)
unfolding cleanup_receiver_table
cleanup_receiver_table-LosesAll now [] = λ i a g. absurd (cc)
cleanup_receiver_table-LosesAll now (e ∷ t) =
    LosesAll-cons is_receiver e (age_receiver now e) t _ (age_receiver-Loses now e)
      (cleanup_receiver_table-LosesAll now t)

-- If no slave was listed twice before a cleanup, none is after it.
pub cleanup_receiver_table-Unique :
    (now : ℕ) (t : List ReceiverEntry)
    → Unique is_receiver t
    → Unique is_receiver ((cleanup_receiver_table now t).0)
cleanup_receiver_table-Unique now t u =
    LosesAll-Unique is_receiver t _ (cleanup_receiver_table-LosesAll now t) u
