-- ===== src/Life/Sends.antt =====
-- receiver_mode.cpp: to whom `sendReceiverInfo` sends a slave's report.
use mathlib.Core.Option.{some-injective}
use nowde.Prelude.{
  ℕ, zero, suc, ◌≡◌, refl, ap, true, false, ◌==◌, some, List, [], ◌∷◌, map, get_elem?, strnlen,
  if_both, if_cases, if◌then◌else◌, arith,
}
use nowde.Wire.{Mac, receiver_info_bytes}
use nowde.Effects.{esp_now_send}
use nowde.Tables.{SenderEntry}
use nowde.Node.{Node, World}
use nowde.Commands.{report_of, send_receiver_info, inform}

-- The addresses of the masters that a slave knows.
abbrev pub masters : List SenderEntry → List Mac
masters [] = []
masters (e ∷ t) = if e.active then e.mac ∷ masters t else masters t

pub inform_lem :
    (bytes : List ℕ) (t : List SenderEntry)
    → inform bytes t ≡ map (λ to. esp_now_send to bytes) (masters t)
unfolding inform
inform_lem bytes [] = refl
inform_lem bytes (e ∷ t) = let rest = inform_lem bytes t in ground arith

pub inform-get_elem? :
    (bytes : List ℕ) (t : List SenderEntry) (i : ℕ) (e : SenderEntry)
    → get_elem? t i ≡ some e
    → e.active ≡ true
    → (k : ℕ) × (get_elem? (inform bytes t) k ≡ some (esp_now_send e.mac bytes))
unfolding inform
inform-get_elem? bytes [] i e g a = absurd (cc)
inform-get_elem? bytes (x ∷ t) zero e g a =
    let same = some-injective x e g in
    if_cases (λ es. (k : ℕ) × (get_elem? es k ≡ some (esp_now_send e.mac bytes))) x.active _ _
      (λ _. (0, ap (λ y. some (esp_now_send y.mac bytes)) same))
      λ off. absurd (cc (ap (λ y. y.active) same, off, a))
inform-get_elem? bytes (x ∷ t) (suc i) e g a =
    let (k, at) = inform-get_elem? bytes t i e g a in
    if_both (λ es. (k : ℕ) × (get_elem? es k ≡ some (esp_now_send e.mac bytes))) x.active _ _
      (suc k, at) (k, at)

-- A subscribed slave sends its report to all its masters.
pub send_receiver_info_lem :
    (w : World) (n : Node)
    → n.receiver_mode ≡ true
    → (strnlen n.subscribed_layer 15 == 0) ≡ false
    → send_receiver_info w n ≡ inform (receiver_info_bytes (report_of w n)) n.senders
unfolding send_receiver_info
send_receiver_info_lem w n mode named = rw (mode, named) refl
