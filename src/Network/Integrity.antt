-- ===== src/Network/Integrity.antt =====
-- No step of the network forges or damages a packet.
use mathlib.Core.Path.{subst}
use mathlib.Core.Option.{some-injective}
use nowde.Prelude.{
  ℕ, zero, suc, ◌≡◌, refl, sym, ap, ◌∙◌, inl, inr, false, some, List, [], ◌∷◌, ◌++◌, set, get_elem?,
  All, All-append, arith, if_cases,
}
use nowde.Wire.{Mac, MediaSyncPacket, media_sync_bytes, mesh_relay_bytes}
use nowde.Wire.RoundTrip.{MediaSyncPacketIsValid}
use nowde.Relay.{PendingRelay, relay_frame, process_pending_relays, is_due}
use nowde.Relay.Firing.{due_frames, process_pending_relays_lem}
use nowde.Relay.Pending.{spent-All}
use nowde.Delivery.Air.{copy_of, starts, length-media_sync_bytes}
use nowde.Node.{Node, World}
use nowde.Receive.{on_data_recv}
use nowde.Receive.Relayed.{Followed, on_data_recv_relayed}
use nowde.Network.{
  Frame, Station, Net, from, speak, hear, poll, Step, speaks, hears, polls, Reach, here, next,
}
use nowde.Network.Genuine.{
  Said, Genuine, direct, relayed, PendingIsGenuine, Holds, StationIsGenuine, NetIsGenuine,
  idle-Holds, heard-Holds,
}

All-imp {ℓ} :
    {A : Type ℓ} (P Q : A → Type 0) → ((x : A) → P x → Q x) → (xs : List A) → All P xs → All Q xs
All-imp P Q f [] h = tt
All-imp P Q f (x ∷ xs) h = (f x h.0, All-imp P Q f xs h.1)

All-get_elem? {ℓ} :
    {A : Type ℓ} (P : A → Type 0) (xs : List A) (k : ℕ) (a : A)
    → All P xs
    → get_elem? xs k ≡ some a
    → P a
All-get_elem? P [] k a h g = cc
All-get_elem? P (x ∷ xs) zero a h g = subst P (some-injective x a g) h.0
All-get_elem? P (x ∷ xs) (suc k) a h g = All-get_elem? P xs k a h.1 g

All-set {ℓ} :
    {A : Type ℓ} (P : A → Type 0) (xs : List A) (k : ℕ) (a : A)
    → All P xs
    → P a
    → All P (set xs k a)
All-set P [] k a h p = tt
All-set P (x ∷ xs) zero a h p = (p, h.1)
All-set P (x ∷ xs) (suc k) a h p = (h.0, All-set P xs k a h.1 p)

module _ (m : Mac) (p : MediaSyncPacket) (said : List (Mac × MediaSyncPacket)) where
  later-Genuine : (f : Frame) → Genuine said f → Genuine ((m, p) ∷ said) f
  later-Genuine f (direct q v s e) = direct q v (inr s) e
  later-Genuine f (relayed o q hop time v s a b e) = relayed o q hop time v (inr s) a b e

  later-Holds : (q : PendingRelay) → Holds said q → Holds ((m, p) ∷ said) q
  later-Holds q h e =
      let g = h e in
      record {
        packet = g.packet;
        valid = g.valid;
        from_origin = inr g.from_origin;
        payload = g.payload;
        seq = g.seq;
        some_hop = g.some_hop;
        few_hops = g.few_hops;
      }

  later-StationIsGenuine :
      (s : Station) → StationIsGenuine said s → StationIsGenuine ((m, p) ∷ said) s
  later-StationIsGenuine s h =
      All-imp (Holds said) (Holds ((m, p) ∷ said)) later-Holds s.node.relay.pending h

speak-NetIsGenuine :
    (mac : Mac) (p : MediaSyncPacket) (net : Net)
    → MediaSyncPacketIsValid p
    → NetIsGenuine net
    → NetIsGenuine (speak mac p net)
unfolding speak
speak-NetIsGenuine mac p net v g = record {
  air = (
    direct p v (inl (refl, refl)) refl,
    All-imp (Genuine net.said) (Genuine ((mac, p) ∷ net.said)) (later-Genuine mac p net.said)
        net.air g.air,
  );
  stations =
      All-imp (StationIsGenuine net.said) (StationIsGenuine ((mac, p) ∷ net.said))
        (later-StationIsGenuine mac p net.said) net.stations g.stations;
}

-- The frame of a forward that a station holds.
relay_frame-Genuine :
    (said : List (Mac × MediaSyncPacket)) (mac : Mac) (q : PendingRelay)
    → PendingIsGenuine said q
    → Genuine said (record { src = mac; bytes = relay_frame q })
relay_frame-Genuine said mac q g =
    relayed q.origin g.packet q.hop q.send_time g.valid g.from_origin g.some_hop g.few_hops λ i.
      mesh_relay_bytes (record { origin = q.origin; seq = g.seq i; hop = q.hop }) ++ g.payload i

due_frames-Genuine :
    (said : List (Mac × MediaSyncPacket)) (mac : Mac) (now : ℕ) (ps : List PendingRelay)
    → All (Holds said) ps
    → All (Genuine said) (from mac (due_frames now ps))
due_frames-Genuine said mac now [] h = tt
due_frames-Genuine said mac now (q ∷ ps) h =
    let rest = due_frames-Genuine said mac now ps h.1 in
    if_cases (λ fs. All (Genuine said) (from mac fs)) (is_due now q) _ _
      (λ e. (relay_frame-Genuine said mac q (h.0 (ground arith)), rest)) λ e. rest

poll-NetIsGenuine :
    (now i : ℕ) (s : Station) (net : Net)
    → get_elem? net.stations i ≡ some s
    → NetIsGenuine net
    → NetIsGenuine (poll now i s net)
unfolding poll
poll-NetIsGenuine now i s net at g =
    let (frames, pending, _, _) = process_pending_relays_lem now s.node.relay in
    let held = All-get_elem? (StationIsGenuine net.said) net.stations i s g.stations at in
    record {
      air =
          All-append (Genuine net.said) (from s.mac (process_pending_relays now s.node.relay).1)
            net.air
            (subst (λ fs. All (Genuine net.said) (from s.mac fs)) (sym frames)
              (due_frames-Genuine net.said s.mac now s.node.relay.pending held))
            g.air;
      stations = All-set (StationIsGenuine net.said) net.stations i _ g.stations (
          subst (All (Holds net.said)) (sym pending)
            (spent-All (Holds net.said) (idle-Holds net.said) now s.node.relay.pending held));
    }

hear-NetIsGenuine :
    (w : World) (i : ℕ) (s : Station) (k : ℕ) (f : Frame) (net : Net)
    → get_elem? net.stations i ≡ some s
    → get_elem? net.air k ≡ some f
    → NetIsGenuine net
    → NetIsGenuine (hear w i s f net)
unfolding hear
hear-NetIsGenuine w i s k f net at on_air g = record {
  air = g.air;
  stations = All-set (StationIsGenuine net.said) net.stations i _ g.stations (
      heard-Holds w net.said f s.node (All-get_elem? (Genuine net.said) net.air k f g.air on_air)
        (All-get_elem? (StationIsGenuine net.said) net.stations i s g.stations at));
}

Step-NetIsGenuine : (net net' : Net) → Step net net' → NetIsGenuine net → NetIsGenuine net'
Step-NetIsGenuine net net' (speaks mac p v) g = speak-NetIsGenuine mac p net v g
Step-NetIsGenuine net net' (hears w i s k f at on_air) g =
    hear-NetIsGenuine w i s k f net at on_air g
Step-NetIsGenuine net net' (polls now i s at) g = poll-NetIsGenuine now i s net at g

-- In every network that is reached from one whose frames and pending forwards are packets that
-- masters broadcast, whatever is heard, lost, repeated, reordered or polled in between, every frame
-- on the air is a broadcast of its sender or a forward, 1 to MAX_HOPS hops old, of a packet that
-- its origin broadcast, byte for byte; and so is every forward that a node still holds.
pub Reach-NetIsGenuine : (start net : Net) → Reach start net → NetIsGenuine start → NetIsGenuine net
Reach-NetIsGenuine start net here g = g
Reach-NetIsGenuine start net (next {net = mid} r st) g =
    Step-NetIsGenuine mid net st (Reach-NetIsGenuine start mid r g)

-- In every network that is reached from one whose frames and pending forwards are packets that
-- masters broadcast, any frame on the air, over whatever relays it came, does to the following of
-- any node that hears it, and tells its host, exactly what some packet does that a master broadcast,
-- heard from that master itself.
pub Reach-Followed :
    (start net : Net) (k : ℕ) (f : Frame) (w : World) (n : Node)
    → Reach start net
    → NetIsGenuine start
    → get_elem? net.air k ≡ some f
    → (origin : Mac) × (p : MediaSyncPacket) × Said origin p net.said
      × Followed
          (on_data_recv w false f.src f.bytes n)
          (on_data_recv w false origin (media_sync_bytes p) n)
Reach-Followed start net k f w n r g at =
    elim (All-get_elem? (Genuine net.said) net.air k f (Reach-NetIsGenuine start net r g).air at) [
      | direct p v s e ↦ (
        f.src,
        p,
        s,
        (
          ap (λ b. (on_data_recv w false f.src b n).0.follower) e,
          ap (λ b. (on_data_recv w false f.src b n).1) e,
        ),
      )
      | relayed origin p hop time v s a b e ↦
          let (same, told) =
            on_data_recv_relayed w f.src (copy_of origin hop time p) n v.seq
              (omega (arith, length-media_sync_bytes p, v.layer)) (starts p) in
          (
            origin,
            p,
            s,
            (
              ap (λ b. (on_data_recv w false f.src b n).0.follower) e ∙ same,
              ap (λ b. (on_data_recv w false f.src b n).1) e ∙ told,
            ),
          )
    ]
