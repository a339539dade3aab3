-- ===== src/Delivery/Air.antt =====
-- The cue on the slave: heard from the master itself, or over any relay.
use mathlib.Core.Path.{subst}
use nowde.Prelude.{
  ℕ, zero, suc, ◌+◌, ◌^◌, ◌≤◌, ◌<◌, ◌≡◌, refl, ap, ◌∙◌, sym, inl, inr, true, false, List, [], ◌∷◌,
  ◌++◌, length, take, get_or, length-append, arith, strncpy, length-strncpy,
}
use nowde.Wire.{
  Mac, MediaSyncPacket, media_sync_packet, media_sync_bytes, broadcast_address, msg_media_sync,
}
use nowde.Wire.RoundTrip.{MediaSyncPacketIsValid, media_sync_packet-media_sync_bytes}
use nowde.Sync.{Follower, layer_matches}
use nowde.Sync.Origin.{MayFollow, Follows}
use nowde.Follow.{process_media_sync_packet}
use nowde.Follow.Master.{Tracks, process_media_sync_packet_lem}
use nowde.Relay.{PendingRelay, relay_frame}
use nowde.Effects.{relay}
use nowde.Node.{Node, World}
use nowde.Sysex.{handle_sysex_message}
use nowde.Replies.{frame}
use nowde.Receive.{consume, on_data_recv}
use nowde.Receive.Relayed.{direct-Followed, on_data_recv_relayed}
use nowde.Delivery.{Cue, CueIsValid, cue_body, cue_packet, relay-cue_body}

length-take : (k n : ℕ) (xs : List ℕ) → length xs ≡ n + k → length (take n xs) ≡ n
length-take k zero xs e = refl
length-take k (suc n) [] e = absurd (omega arith)
length-take k (suc n) (x ∷ xs) e = ap suc (length-take k n xs (omega arith))

cue_packet-IsValid :
    (w : World) (m : Node) (c : Cue)
    → CueIsValid c
    → w.mesh_now < 2 ^ 32
    → MediaSyncPacketIsValid (cue_packet w m c)
cue_packet-IsValid w m c v t =
    let full = strncpy 16 (take 15 c.layer ++ 0 ∷ []) in
    record {
      layer = omega (
        arith,
        length-append (take 15 full) (0 ∷ []),
        length-take 1 15 full (length-strncpy 16 _),
      );
      position = v.position;
      timestamp = t;
      seq = omega arith;
    }

pub length-media_sync_bytes :
    (p : MediaSyncPacket) → length (media_sync_bytes p) ≡ 15 + length p.layer
unfolding media_sync_bytes
length-media_sync_bytes p = omega (arith, length-append p.layer _)

pub starts : (p : MediaSyncPacket) → get_or (media_sync_bytes p) 0 0 ≡ msg_media_sync
unfolding media_sync_bytes
starts p = refl

-- A slave that takes packets of this layer and may follow this master.
pub record Listens (w : World) (origin : Mac) (layer : List ℕ) (n : Node) : Type 0 where
  pub receives : n.receiver_mode ≡ true
  pub is_slave : n.sender_mode ≡ false
  pub takes : layer_matches n.subscribed_layer layer ≡ true
  pub lock : MayFollow w.now origin n.follower

process-Tracks :
    (now mesh_now : ℕ) (subscribed : List ℕ) (origin : Mac) (bytes : List ℕ) (f : Follower)
    → 27 ≤ length bytes
    → layer_matches subscribed (media_sync_packet bytes).layer ≡ true
    → MayFollow now origin f
    → let after = process_media_sync_packet now mesh_now subscribed origin bytes f in
      Tracks now mesh_now (media_sync_packet bytes) after.0.sync × Follows now origin f after.0
process-Tracks now mesh_now subscribed origin bytes f l m h =
    elim (process_media_sync_packet_lem now mesh_now subscribed origin bytes f) [
      | inl (inl short, e) ↦ absurd (omega arith)
      | inl (inr (inl other), e) ↦ absurd (cc)
      | inl (inr (inr locked), e) ↦ absurd (locked h)
      | inr (a, b, d, follows, tracks) ↦ (tracks, follows)
    ]

pub consume-follower :
    (w : World) (origin : Mac) (bytes : List ℕ) (n : Node)
    → n.receiver_mode ≡ true
    → n.sender_mode ≡ false
    → (consume w origin bytes n).0.follower
      ≡ (process_media_sync_packet w.now w.mesh_now n.subscribed_layer origin bytes n.follower).0
unfolding consume
consume-follower w origin bytes n r s = rw (r, s) refl

-- The follower of a slave after a frame that it follows.
abbrev pub Led : World → Mac → MediaSyncPacket → Node → Node → Type 0
Led w origin p n after =
    Tracks w.now w.mesh_now p after.follower.sync × Follows w.now origin n.follower after.follower

heard-Led :
    (w : World) (origin : Mac) (bytes : List ℕ) (n : Node)
    → 27 ≤ length bytes
    → get_or bytes 0 0 ≡ msg_media_sync
    → Listens w origin (media_sync_packet bytes).layer n
    → Led w origin (media_sync_packet bytes) n (on_data_recv w false origin bytes n).0
heard-Led w origin bytes n l k h =
    subst
      (λ f.
        Tracks w.now w.mesh_now (media_sync_packet bytes) f.sync
        × Follows w.now origin n.follower f)
      (sym (
        (direct-Followed w origin bytes n l k).0
        ∙ consume-follower w origin bytes n h.receives h.is_slave))
      (process-Tracks w.now w.mesh_now n.subscribed_layer origin bytes n.follower l h.takes h.lock)

-- The frame of a packet, heard from its master.
pub packet-Led :
    (w : World) (origin : Mac) (p : MediaSyncPacket) (n : Node)
    → MediaSyncPacketIsValid p
    → Listens w origin p.layer n
    → Led w origin p n (on_data_recv w false origin (media_sync_bytes p) n).0
packet-Led w origin p n v h =
    let same = media_sync_packet-media_sync_bytes p v in
    subst (λ q. Led w origin q n (on_data_recv w false origin (media_sync_bytes p) n).0) same
      (heard-Led w origin (media_sync_bytes p) n (omega (arith, length-media_sync_bytes p, v.layer))
        (starts p) (subst (λ q. Listens w origin q.layer n) (sym same) h))

-- A forward of the frame of a packet.
abbrev pub copy_of : Mac → ℕ → ℕ → MediaSyncPacket → PendingRelay
copy_of origin hop time p = record {
  active = true;
  send_time = time;
  origin = origin;
  seq = p.seq;
  hop = hop;
  payload = media_sync_bytes p;
}

-- The frame of a packet, heard over a relay.
relayed-Led :
    (w : World) (origin relayer : Mac) (hop time : ℕ) (p : MediaSyncPacket) (n : Node)
    → MediaSyncPacketIsValid p
    → Listens w origin p.layer n
    → Led w origin p n (on_data_recv w false relayer (relay_frame (copy_of origin hop time p)) n).0
relayed-Led w origin relayer hop time p n v h =
    let (same, _) =
      on_data_recv_relayed w relayer (copy_of origin hop time p) n v.seq
        (omega (arith, length-media_sync_bytes p, v.layer)) (starts p) in
    subst (λ f. Tracks w.now w.mesh_now p f.sync × Follows w.now origin n.follower f) (sym same)
      (packet-Led w origin p n v h)

-- A host sends a cue whose fields fit, in a frame of 29 bytes, to a master in sender mode without RF
-- simulation, at a mesh time of 32 bits. The master answers with one broadcast, and every slave in
-- receiver mode that takes the layer and may follow the master is afterwards at the cue's index,
-- state and position (later by the age that a trusted mesh clock gives), with its link up and its
-- origin lock on the master, whether it hears the broadcast itself or, from whatever relayer and
-- with whatever hop byte, a forward of it.
pub cue_is_followed :
    (w w' : World) (origin relayer : Mac) (hop time : ℕ) (m n : Node) (c : Cue)
    → CueIsValid c
    → w.mesh_now < 2 ^ 32
    → m.sender_mode ≡ true
    → m.rf_simulation ≡ false
    → Listens w' origin (cue_packet w m c).layer n
    → let p = cue_packet w m c in
      ((handle_sysex_message w 29 (frame 0x10 (cue_body c)) m).1
        ≡ relay broadcast_address (media_sync_bytes p) ∷ [])
      × Led w' origin p n (on_data_recv w' false origin (media_sync_bytes p) n).0
      × Led w' origin p n
          (on_data_recv w' false relayer (relay_frame (copy_of origin hop time p)) n).0
cue_is_followed w w' origin relayer hop time m n c v t s f h =
    let p = cue_packet w m c in
    let valid = cue_packet-IsValid w m c v t in
    (
      relay-cue_body w m c v s f,
      packet-Led w' origin p n valid h,
      relayed-Led w' origin relayer hop time p n valid h,
    )
