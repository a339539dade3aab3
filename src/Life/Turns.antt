-- ===== src/Life/Turns.antt =====
-- main.cpp: the turns of `espnowTask` that follow a report, and what they leave of it.
use mathlib.Core.Path.{subst}
use nowde.Prelude.{
  ℕ, ◌≤◌, ◌≡◌, ap, sym, ◌∙◌, ◌⊎◌, inl, inr, some, List, [], ◌∷◌, All, get_elem?, sub32, arith,
}
use nowde.Config.{receiver_timeout_ms, max_senders, max_receivers}
use nowde.Wire.{Mac, ReceiverInfo}
use nowde.Tables.{ReceiverEntry, cleanup_sender_table, cleanup_receiver_table}
use nowde.Tables.Fits.{
  TableFits, SenderFits, ReceiverFits, cleanup_sender_table-Fits, cleanup_receiver_table-Fits,
}
use nowde.Tables.Reported.{Says, cleanup_receiver_table-Says}
use nowde.Node.{Node, World}
use nowde.Task.{Tasks, sender_turn, receiver_turn, espnow_turn}
use nowde.Life.Fits.{NodeFits}

-- One turn in each world, in order.
unfoldable pub run_turns : List World → Tasks → Tasks
run_turns [] t = t
run_turns (u ∷ us) t = run_turns us (espnow_turn u t).0

espnow_turn-tables :
    (w : World) (t : Tasks)
    → let n = t.node in
      let m = (espnow_turn w t).0.node in
      ((m.senders ≡ n.senders) ⊎ (m.senders ≡ (cleanup_sender_table w.now n.senders).0))
      × ((m.receivers ≡ n.receivers) ⊎ (m.receivers ≡ (cleanup_receiver_table w.now n.receivers).0))
      × (m.sender_mode ≡ n.sender_mode)
unfolding espnow_turn sender_turn receiver_turn
espnow_turn-tables w t = (ground arith, ground arith, ground arith)

espnow_turn-answers :
    (w : World) (t : Tasks)
    → let n = t.node in
      let m = (espnow_turn w t).0.node in
      (m.host_resumed ≡ n.host_resumed) × (m.last_running_state ≡ n.last_running_state)
unfolding espnow_turn sender_turn receiver_turn
espnow_turn-answers w t = (ground arith, ground arith)

espnow_turn-NodeFits :
    (w : World) (t : Tasks) → NodeFits t.node → NodeFits ((espnow_turn w t).0.node)
espnow_turn-NodeFits w t f =
    let (masters, slaves, mode) = espnow_turn-tables w t in
    record {
      senders = elim masters [
        | inl e ↦ subst (TableFits SenderFits max_senders) (sym e) f.senders
        | inr e ↦
            subst (TableFits SenderFits max_senders) (sym e)
              (cleanup_sender_table-Fits w.now max_senders t.node.senders f.senders)
      ];
      receivers = elim slaves [
        | inl e ↦ subst (TableFits ReceiverFits max_receivers) (sym e) f.receivers
        | inr e ↦
            subst (TableFits ReceiverFits max_receivers) (sym e)
              (cleanup_receiver_table-Fits w.now max_receivers t.node.receivers f.receivers)
      ];
    }

-- Entry `k` is `e`, and a host that asks is answered as by `m`.
pub record Holds (m : Node) (k : ℕ) (e : ReceiverEntry) (n : Node) : Type 0 where
  pub there : get_elem? n.receivers k ≡ some e
  pub mode : n.sender_mode ≡ m.sender_mode
  pub resumed : n.host_resumed ≡ m.host_resumed
  pub answered : n.last_running_state ≡ m.last_running_state
  pub fits : NodeFits n

-- Turns within 5 s of a report leave what it says.
pub run_turns-Holds :
    (us : List World) (t : Tasks) (m : Node) (heard : ℕ) (src : Mac) (i : ReceiverInfo) (k : ℕ)
    (e : ReceiverEntry)
    → All (λ u. sub32 u.now heard ≤ receiver_timeout_ms) us
    → Says heard src i e
    → Holds m k e t.node
    → Holds m k e (run_turns us t).node
unfolding run_turns
run_turns-Holds [] t m heard src i k e soon says h = h
run_turns-Holds (u ∷ us) t m heard src i k e soon says h =
    let (masters, slaves, mode) = espnow_turn-tables u t in
    let (resumed, answered) = espnow_turn-answers u t in
    run_turns-Holds us (espnow_turn u t).0 m heard src i k e soon.1 says (record {
      there = elim slaves [
        | inl same ↦ ap (λ r. get_elem? r k) same ∙ h.there
        | inr cleaned ↦
            ap (λ r. get_elem? r k) cleaned
            ∙ cleanup_receiver_table-Says u.now heard src i t.node.receivers k e soon.0 says h.there
      ];
      mode = mode ∙ h.mode;
      resumed = resumed ∙ h.resumed;
      answered = answered ∙ h.answered;
      fits = espnow_turn-NodeFits u t h.fits;
    })
