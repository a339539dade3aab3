-- ===== src/Boot/Quiet.antt =====
-- The effects that leave the store alone.
use nowde.Prelude.{
  ℕ, ◌+◌, ◌≡◌, refl, false, not, ◌||◌, List, [], ◌∷◌, ◌++◌, map, strnlen, ltb, ◌==◌, if◌then◌else◌,
  if_both, sub32, u32,
}
use nowde.Config.{role_slave, role_master}
use nowde.Wire.{Mac}
use nowde.Slots.{Slot, found, free, full}
use nowde.Usb.{Packet}
use nowde.Effects.{Effect, usb}
use nowde.Tables.{SenderEntry, ReceiverEntry}
use nowde.Node.{Node, World, apply_role, forget_peers}
use nowde.Replies.{
  chunk_packets, running_state_bodies, send_hello, send_config_state, send_running_state,
  send_error_report,
}
use nowde.Commands.{query_running_state, inform, send_receiver_info, pass_layer}
use nowde.Boot.{Store, store_effect, store_all}

pub store_all-append :
    (xs ys : List Effect) (s : Store) → store_all (xs ++ ys) s ≡ store_all ys (store_all xs s)
unfolding store_all
store_all-append [] ys s = refl
store_all-append (x ∷ xs) ys s = store_all-append xs ys _

inform-store :
    (bytes : List ℕ) (t : List SenderEntry) (s : Store) → store_all (inform bytes t) s ≡ s
unfolding store_all store_effect inform
inform-store bytes [] s = refl
inform-store bytes (e ∷ t) s =
    if_both (λ (es : List Effect). store_all es s ≡ s) e.active _ _ (inform-store bytes t s)
      (inform-store bytes t s)

forget_peers-store : (t : List ReceiverEntry) (s : Store) → store_all (forget_peers t) s ≡ s
unfolding store_all store_effect forget_peers
forget_peers-store [] s = refl
forget_peers-store (e ∷ t) s =
    if_both (λ (es : List Effect). store_all es s ≡ s) e.active _ _ (forget_peers-store t s)
      (forget_peers-store t s)

pub send_receiver_info-store :
    (w : World) (n : Node) (s : Store) → store_all (send_receiver_info w n) s ≡ s
unfolding store_all send_receiver_info
send_receiver_info-store w n s =
    if_both (λ (es : List Effect). store_all es s ≡ s)
      (not n.receiver_mode || strnlen n.subscribed_layer 15 == 0) _ _ refl
      (inform-store _ n.senders s)

usb-store :
    (f : List ℕ → List Packet) (xs : List (List ℕ)) (s : Store)
    → store_all (map (λ body. usb (f body)) xs) s ≡ s
unfolding store_all store_effect
usb-store f [] s = refl
usb-store f (x ∷ xs) s = usb-store f xs s

running_state-store :
    (w : World) (n : Node) (s : Store) → store_all (send_running_state w n).1 s ≡ s
unfolding store_all send_running_state
running_state-store w n s =
    if_both (λ (r : Node × List Effect). store_all r.1 s ≡ s)
      (ltb (sub32 w.now n.last_running_state) 500) _ _ refl
      (usb-store chunk_packets (running_state_bodies w n.receivers) s)

pub query_running_state-store :
    (w : World) (n : Node) (s : Store) → store_all (query_running_state w n).1 s ≡ s
unfolding query_running_state store_all store_effect send_hello
query_running_state-store w n s =
    let later = record w { now = if n.host_resumed then u32 (w.now + 20) else w.now } in
    let k = running_state-store later (record n { host_resumed = false }) s in
    if_both (λ (r : Node × List Effect). store_all r.1 s ≡ s) n.sender_mode _ _
      (if_both (λ (es : List Effect). store_all es s ≡ s) n.host_resumed _ _ k k) refl

pub config_state-store : (m : Node) (s : Store) → store_all (send_config_state m ∷ []) s ≡ s
unfolding store_all store_effect send_config_state
config_state-store m s = refl

pub told-store :
    (w : World) (m : Node) (s : Store) → store_all (send_hello w m ∷ send_config_state m ∷ []) s ≡ s
unfolding store_all store_effect send_config_state send_hello
told-store w m s = refl

pub apply_role-store : (r : ℕ) (n : Node) (s : Store) → store_all (apply_role r n).1 s ≡ s
unfolding store_all apply_role
apply_role-store r n s =
    if_both (λ (q : Node × List Effect). store_all q.1 s ≡ s) (r == role_master) _ _ refl
      (if_both (λ (q : Node × List Effect). store_all q.1 s ≡ s) (r == role_slave) _ _
        (if_both (λ (es : List Effect). store_all es s ≡ s) n.sender_mode _ _
          (forget_peers-store n.receivers s) refl)
        refl)

pub pass_layer-store :
    (w : World) (target : Mac) (layer : List ℕ) (i : Slot) (s : Store)
    → store_all (pass_layer w target layer i) s ≡ s
unfolding pass_layer store_all store_effect send_error_report
pass_layer-store w target layer (found i) s =
    if_both (λ (es : List Effect). store_all es s ≡ s) w.send_ok _ _ refl refl
pass_layer-store w target layer (free i) s = refl
pass_layer-store w target layer full s = refl
