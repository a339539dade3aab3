-- ===== src/Network/Genuine.antt =====
-- Every frame on the air, and every forward that a node holds, is a packet that a master broadcast.
use mathlib.Core.Path.{subst}
use mathlib.Core.Bool.{false≢true}
use nowde.Prelude.{
  ℕ, zero, suc, ◌+◌, ◌≤◌, ◌≡◌, refl, sym, ap, ◌∙◌, ◌⊎◌, Bool, true, false, List, [], ◌∷◌, length,
  get_or, take, drop, All, u8, u32, arith,
}
use nowde.Config.{max_hops}
use nowde.Wire.{
  Mac, MediaSyncPacket, media_sync_bytes, media_sync_len, media_sync_packet, msg_media_sync,
  mesh_relay_header,
}
use nowde.Wire.RoundTrip.{MediaSyncPacketIsValid, media_sync_packet-media_sync_bytes}
use nowde.Relay.{PendingRelay, Relay, relay_frame, handle_flood_candidate}
use nowde.Relay.Firing.{relay_frame_lem}
use nowde.Relay.Pending.{forward_of, handle_flood_candidate-All}
use nowde.Delivery.Air.{copy_of, starts, length-media_sync_bytes}
use nowde.Node.{Node, World}
use nowde.Receive.{on_data_recv, on_media_sync, on_mesh_relay, consume, flood}
use nowde.Receive.Relayed.{relayed-on_mesh_relay, length-relay_frame}
use nowde.Network.{Frame, Station, Net}

-- The master broadcast this packet.
abbrev pub Said : Mac → MediaSyncPacket → List (Mac × MediaSyncPacket) → Type 0
Said m p [] = ⊥
Said m p ((m', p') ∷ rest) = ((m ≡ m') × (p ≡ p')) ⊎ Said m p rest

-- A frame is a broadcast of its station, or a forward of one, one to MAX_HOPS hops old.
pub data Genuine (said : List (Mac × MediaSyncPacket)) (f : Frame) : Type 0 where
  direct :
      (p : MediaSyncPacket)
      → MediaSyncPacketIsValid p
      → Said f.src p said
      → f.bytes ≡ media_sync_bytes p
      → Genuine said f
  relayed :
      (origin : Mac) (p : MediaSyncPacket) (hop time : ℕ)
      → MediaSyncPacketIsValid p
      → Said origin p said
      → 1 ≤ hop
      → hop ≤ max_hops
      → f.bytes ≡ relay_frame (copy_of origin hop time p)
      → Genuine said f

-- A forward that is still to go out is one of a packet that its origin broadcast.
pub record PendingIsGenuine (said : List (Mac × MediaSyncPacket)) (q : PendingRelay) : Type 0 where
  pub packet : MediaSyncPacket
  pub valid : MediaSyncPacketIsValid packet
  pub from_origin : Said q.origin packet said
  pub payload : q.payload ≡ media_sync_bytes packet
  pub seq : q.seq ≡ packet.seq
  pub some_hop : 1 ≤ q.hop
  pub few_hops : q.hop ≤ max_hops

abbrev pub Holds : List (Mac × MediaSyncPacket) → PendingRelay → Type 0
Holds said q = q.active ≡ true → PendingIsGenuine said q

abbrev pub StationIsGenuine : List (Mac × MediaSyncPacket) → Station → Type 0
StationIsGenuine said s = All (Holds said) s.node.relay.pending

pub record NetIsGenuine (net : Net) : Type 0 where
  pub air : All (Genuine net.said) net.air
  pub stations : All (StationIsGenuine net.said) net.stations

pub idle-Holds :
    (said : List (Mac × MediaSyncPacket)) (q : PendingRelay)
    → Holds said (record q { active = false })
idle-Holds said q e = absurd (false≢true e)

direct-flood :
    (w : World) (src : Mac) (bytes : List ℕ) (n : Node)
    → 31 ≤ length bytes
    → get_or bytes 0 0 ≡ msg_media_sync
    → (on_data_recv w false src bytes n).0.relay
      ≡ handle_flood_candidate w.my_mac w.now w.draw src
          (media_sync_packet bytes).seq
          0
          bytes
          false
          n.relay
unfolding on_data_recv on_media_sync flood consume
direct-flood w src bytes n l k = ground arith

relay-flood :
    (w : World) (bytes : List ℕ) (n : Node)
    → 37 ≤ length bytes
    → let header = mesh_relay_header bytes in
      (on_mesh_relay w bytes n).0.relay
      ≡ handle_flood_candidate w.my_mac w.now w.draw header.origin header.seq header.hop
          (drop 10 bytes)
          true
          n.relay
unfolding on_mesh_relay flood consume
relay-flood w bytes n l = ground arith

pub take-all : (n : ℕ) (xs : List ℕ) → length xs ≡ n → take n xs ≡ xs
take-all zero [] e = refl
take-all zero (x ∷ xs) e = absurd (omega arith)
take-all (suc n) [] e = absurd (omega arith)
take-all (suc n) (x ∷ xs) e = ap (λ t. x ∷ t) (take-all n xs (omega arith))

pub length-valid :
    (p : MediaSyncPacket) → MediaSyncPacketIsValid p → length (media_sync_bytes p) ≡ media_sync_len
length-valid p v = omega (arith, v.layer, length-media_sync_bytes p)

-- The forward that a packet leads to, from a frame that is `hop` hops old.
forward-Holds :
    (said : List (Mac × MediaSyncPacket)) (origin : Mac) (p : MediaSyncPacket) (hop time : ℕ)
    → MediaSyncPacketIsValid p
    → Said origin p said
    → hop ≤ max_hops
    → u8 (hop + 1) ≤ max_hops
    → Holds said (forward_of origin p.seq hop (media_sync_bytes p) time)
forward-Holds said origin p hop time v s h m e = record {
  packet = p;
  valid = v;
  from_origin = s;
  payload = take-all 31 (media_sync_bytes p) (length-valid p v);
  seq = refl;
  some_hop = omega arith;
  few_hops = m;
}

flood-Holds :
    (w : World) (said : List (Mac × MediaSyncPacket)) (origin : Mac) (p : MediaSyncPacket) (hop : ℕ)
    (is_relay : Bool) (r : Relay)
    → MediaSyncPacketIsValid p
    → Said origin p said
    → hop ≤ max_hops
    → All (Holds said) r.pending
    → All
        (Holds said)
        (handle_flood_candidate w.my_mac w.now w.draw origin p.seq hop
          (media_sync_bytes p)
          is_relay
          r).pending
flood-Holds w said origin p hop is_relay r v s h k =
    handle_flood_candidate-All (Holds said) (idle-Holds said) w.my_mac origin w.now w.draw p.seq hop
      (media_sync_bytes p) is_relay r (forward-Holds said origin p hop (u32 (w.now + w.draw)) v s h)
      k

-- What a frame that is heard does to the forwards, by what it is.
pub direct-relay :
    (w : World) (src : Mac) (p : MediaSyncPacket) (n : Node)
    → MediaSyncPacketIsValid p
    → (on_data_recv w false src (media_sync_bytes p) n).0.relay
      ≡ handle_flood_candidate w.my_mac w.now w.draw src p.seq 0 (media_sync_bytes p) false n.relay
direct-relay w src p n v =
    direct-flood w src (media_sync_bytes p) n (omega (arith, length-valid p v)) (starts p)
    ∙ ap
        (λ q.
          handle_flood_candidate w.my_mac w.now w.draw src q.seq 0 (media_sync_bytes p) false
            n.relay)
        (media_sync_packet-media_sync_bytes p v)

pub relayed-relay :
    (w : World) (src origin : Mac) (p : MediaSyncPacket) (hop time : ℕ) (n : Node)
    → MediaSyncPacketIsValid p
    → (on_data_recv w false src (relay_frame (copy_of origin hop time p)) n).0.relay
      ≡ handle_flood_candidate w.my_mac w.now w.draw origin p.seq hop
          (media_sync_bytes p)
          true
          n.relay
relayed-relay w src origin p hop time n v =
    let copy = copy_of origin hop time p in
    let (header, inner) = relay_frame_lem copy v.seq in
    ap (λ r. r.0.relay) (relayed-on_mesh_relay w src copy n)
    ∙ relay-flood w (relay_frame copy) n (omega (arith, length-relay_frame copy, length-valid p v))
    ∙ ap
        (λ q.
          handle_flood_candidate w.my_mac w.now w.draw q.origin q.seq q.hop
            (drop 10 (relay_frame copy)) true n.relay)
        header
    ∙ ap (λ q. handle_flood_candidate w.my_mac w.now w.draw origin p.seq hop q true n.relay) inner

-- A frame that is heard brings nothing but the forward of its packet.
pub heard-Holds :
    (w : World) (said : List (Mac × MediaSyncPacket)) (f : Frame) (n : Node)
    → Genuine said f
    → All (Holds said) n.relay.pending
    → All (Holds said) (on_data_recv w false f.src f.bytes n).0.relay.pending
heard-Holds w said f n (direct p v s e) h =
    subst (λ r. All (Holds said) r.pending)
      (sym (ap (λ b. (on_data_recv w false f.src b n).0.relay) e ∙ direct-relay w f.src p n v))
      (flood-Holds w said f.src p 0 false n.relay v s (omega arith) h)
heard-Holds w said f n (relayed origin p hop time v s a b e) h =
    subst (λ r. All (Holds said) r.pending)
      (sym (
        ap (λ b. (on_data_recv w false f.src b n).0.relay) e
        ∙ relayed-relay w f.src origin p hop time n v))
      (flood-Holds w said origin p hop true n.relay v s b h)
