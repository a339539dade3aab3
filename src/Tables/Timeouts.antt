-- ===== src/Tables/Timeouts.antt =====
-- How long a table keeps an entry that is no longer heard.
use nowde.Prelude.{ℕ, ◌≤◌, ◌≡◌, true, ◌&&◌, List, [], ◌∷◌, ltb, sub32, All, arith, if_cases}
use mathlib.Core.Bool.{false≢true}
use nowde.Config.{sender_timeout_ms, receiver_timeout_ms}
use nowde.Effects.{Effect}
use nowde.Tables.{
  SenderEntry, ReceiverEntry, cleanup_sender_table, cleanup_receiver_table, age_receiver,
}

-- A master is listed only if it was heard within the last 5 s.
abbrev pub SenderIsRecent : ℕ → SenderEntry → Type 0
SenderIsRecent now e = e.active ≡ true → sub32 now e.last_seen ≤ sender_timeout_ms

-- Whatever the table held, after a cleanup it lists no master that has been silent for over 5 s.
pub cleanup_sender_table_recent :
    (now : ℕ) (t : List SenderEntry) → All (SenderIsRecent now) ((cleanup_sender_table now t).0)
unfolding cleanup_sender_table
cleanup_sender_table_recent now [] = tt
cleanup_sender_table_recent now (e ∷ t) =
    if_cases {A = List SenderEntry × List Effect} (λ v. All (SenderIsRecent now) (v.0))
      (e.active && ltb sender_timeout_ms (sub32 now e.last_seen)) _ _
      (λ h. ((λ a. absurd (false≢true a)), cleanup_sender_table_recent now t))
      λ h. ((λ a. ground arith), cleanup_sender_table_recent now t)

-- A slave is listed only if it was heard within the last 10 s, and shown as connected only if it
-- was heard within the last 5 s.
abbrev pub ReceiverIsRecent : ℕ → ReceiverEntry → Type 0
ReceiverIsRecent now e =
    (e.active ≡ true → sub32 now e.last_seen ≤ 10000)
    × (e.active && e.connected ≡ true → sub32 now e.last_seen ≤ receiver_timeout_ms)

age_receiver_recent : (now : ℕ) (e : ReceiverEntry) → ReceiverIsRecent now (age_receiver now e)
unfolding age_receiver
age_receiver_recent now e = (ground arith, ground arith)

-- Whatever the table held, after a cleanup it lists no slave that has been silent for over 10 s, and
-- none as connected that has been silent for over 5 s.
pub cleanup_receiver_table_recent :
    (now : ℕ) (t : List ReceiverEntry)
    → All (ReceiverIsRecent now) ((cleanup_receiver_table now t).0)
unfolding cleanup_receiver_table
cleanup_receiver_table_recent now [] = tt
cleanup_receiver_table_recent now (e ∷ t) =
    (age_receiver_recent now e, cleanup_receiver_table_recent now t)
