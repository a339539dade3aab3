-- ===== src/Receive/Relayed.antt =====
-- A packet that arrives over a relay, and the same packet from its master.
use nowde.Prelude.{
  ℕ, ◌+◌, ◌^◌, ◌≤◌, ◌<◌, ◌≡◌, refl, sym, ap, ◌∙◌, false, List, length, get_or, drop, ltb, arith,
  if_cases,
}
use nowde.Wire.{Mac, mesh_relay_bytes, mesh_relay_header, msg_media_sync, media_sync_min_len}
use nowde.Relay.{PendingRelay, relay_frame}
use nowde.Relay.Firing.{relay_frame_lem}
use nowde.Effects.{Effect}
use nowde.Node.{Node, World}
use nowde.Receive.{consume, flood, on_media_sync, on_mesh_relay, on_data_recv}

-- What following sees and the host hears.
abbrev pub Followed : Node × List Effect → Node × List Effect → Type 0
Followed a b = (a.0.follower ≡ b.0.follower) × (a.1 ≡ b.1)

pub direct-Followed :
    (w : World) (src : Mac) (bytes : List ℕ) (n : Node)
    → 27 ≤ length bytes
    → get_or bytes 0 0 ≡ msg_media_sync
    → Followed (on_data_recv w false src bytes n) (consume w src bytes n)
unfolding on_data_recv on_media_sync flood
direct-Followed w src bytes n l k = (ground arith, ground arith)

on_mesh_relay-Followed :
    (w : World) (bytes : List ℕ) (n : Node)
    → 37 ≤ length bytes
    → Followed
        (on_mesh_relay w bytes n)
        (consume w (mesh_relay_header bytes).origin (drop 10 bytes) n)
unfolding on_mesh_relay flood
on_mesh_relay-Followed w bytes n l = (ground arith, ground arith)

pub relayed-on_mesh_relay :
    (w : World) (relayer : Mac) (p : PendingRelay) (n : Node)
    → on_data_recv w false relayer (relay_frame p) n ≡ on_mesh_relay w (relay_frame p) n
unfolding on_data_recv mesh_relay_bytes
relayed-on_mesh_relay w relayer p n =
    if_cases (λ v. v ≡ on_mesh_relay w (relay_frame p) n) (ltb (length (relay_frame p)) 1) _ _
      (λ e. absurd (ground arith)) λ e. refl

pub length-relay_frame : (p : PendingRelay) → length (relay_frame p) ≡ 10 + length p.payload
unfolding mesh_relay_bytes
length-relay_frame p = omega arith

-- A copy of a master's MEDIA_SYNC, of 27 bytes or more, that arrives as the frame of a node's pending
-- forward, from whatever relayer, is followed as the packet heard from the master itself: the state
-- of following and the origin lock after it are the same, and so is what the host is told.
pub on_data_recv_relayed :
    (w : World) (relayer : Mac) (p : PendingRelay) (n : Node)
    → p.seq < 2 ^ 16
    → media_sync_min_len ≤ length p.payload
    → get_or p.payload 0 0 ≡ msg_media_sync
    → Followed
        (on_data_recv w false relayer (relay_frame p) n)
        (on_data_recv w false p.origin p.payload n)
on_data_recv_relayed w relayer p n s l k =
    let (header, inner) = relay_frame_lem p s in
    let (f, m) =
      on_mesh_relay-Followed w (relay_frame p) n (omega (arith, l, length-relay_frame p)) in
    let (f', m') = direct-Followed w p.origin p.payload n l k in
    let same =
      ap (λ h. consume w (h.origin) (drop 10 (relay_frame p)) n) header
      ∙ ap (λ b. consume w p.origin b n) inner in
    let heard = relayed-on_mesh_relay w relayer p n in
    (
      ap (λ r. r.0.follower) heard ∙ f ∙ ap (λ r. r.0.follower) same ∙ sym f',
      ap (λ r. r.1) heard ∙ m ∙ ap (λ r. r.1) same ∙ sym m',
    )
