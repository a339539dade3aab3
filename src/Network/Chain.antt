-- ===== src/Network/Chain.antt =====
-- A packet reaches the end of a chain of nodes, each of which hears only the one before it.
use mathlib.Core.Path.{subst}
use nowde.Prelude.{
  ℕ, ◌+◌, ◌/◌, ◌^◌, ◌≤◌, ◌≡◌, ◌≢◌, sym, ap, ◌∙◌, false, some, List, [], ◌∷◌, All, length, get_elem?,
  get_elem?-set_ne, arith,
}
use nowde.Config.{max_hops}
use nowde.Wire.{Mac, MediaSyncPacket, media_sync_bytes}
use nowde.Wire.RoundTrip.{MediaSyncPacketIsValid}
use nowde.Delivery.Air.{length-media_sync_bytes}
use nowde.Relay.Firing.{millis_at}
use nowde.Node.{Node, World}
use nowde.Receive.{on_data_recv}
use nowde.Receive.Relayed.{Followed, on_data_recv_relayed}
use nowde.Delivery.Air.{copy_of, starts}
use nowde.Network.{Frame, Station, Net, hear, poll, Reach, here, next}
use nowde.Network.Delivery.{Carries, itself, copy, CanForward, heard_and_polled, hears_and_polls}

-- A station of the chain: what its chip answers when it hears the packet, when it does, and when it
-- polls its forwards.
pub record Hop : Type 0 where
  pub world : World
  pub heard_at : ℕ
  pub polled_at : ℕ
  pub index : ℕ
  pub station : Station

-- It can forward the packet, and polls after the delay that it drew, with no wrap between.
pub record HopIsReady (origin : Mac) (p : MediaSyncPacket) (net : Net) (h : Hop) : Type 0 where
  pub listed : get_elem? net.stations h.index ≡ some h.station
  pub able : CanForward h.world origin p h.station.node
  pub clock : h.world.now ≡ millis_at h.heard_at
  pub late : h.heard_at + h.world.draw ≤ h.polled_at
  pub epoch : h.heard_at / 2 ^ 32 ≡ h.polled_at / 2 ^ 32

-- All of them, no station twice.
abbrev pub ChainIsReady : Mac → MediaSyncPacket → Net → List Hop → Type 0
ChainIsReady origin p net [] = Unit {0}
ChainIsReady origin p net (h ∷ hs) =
    HopIsReady origin p net h × All (λ k. h.index ≢ k.index) hs × ChainIsReady origin p net hs

-- What a hop does to the other stations: nothing.
others_kept :
    (origin : Mac) (p : MediaSyncPacket) (w : World) (poll_time i : ℕ) (s : Station) (f : Frame)
    (net : Net) (hs : List Hop)
    → All (λ k. i ≢ k.index) hs
    → ChainIsReady origin p net hs
    → ChainIsReady origin p (heard_and_polled w poll_time i s f net) hs
unfolding hear poll
others_kept origin p w poll_time i s f net [] d r = tt
others_kept origin p w poll_time i s f net (h ∷ hs) d (ready, apart, rest) = (
  record {
    listed =
        get_elem?-set_ne _ i h.index _ d.0
        ∙ get_elem?-set_ne net.stations i h.index _ d.0
        ∙ ready.listed;
    able = ready.able;
    clock = ready.clock;
    late = ready.late;
    epoch = ready.epoch;
  },
  apart,
  others_kept origin p w poll_time i s f net hs d.1 rest,
)

Reach-trans : (a b c : Net) → Reach a b → Reach b c → Reach a c
Reach-trans a b c r here = r
Reach-trans a b c r (next q s) = next (Reach-trans a _ _ r q) s

-- A frame that carries a packet is followed as the packet of its master.
Carries-Followed :
    (origin : Mac) (p : MediaSyncPacket) (f : Frame) (hop : ℕ)
    → MediaSyncPacketIsValid p
    → Carries origin p f hop
    → (w : World) (n : Node)
    → Followed
        (on_data_recv w false f.src f.bytes n)
        (on_data_recv w false origin (media_sync_bytes p) n)
Carries-Followed origin p f hop v (itself z s e) w n =
    let same =
      ap (λ b. on_data_recv w false f.src b n) e
      ∙ ap (λ m. on_data_recv w false m (media_sync_bytes p) n) s in
    (ap (λ r. r.0.follower) same, ap (λ r. r.1) same)
Carries-Followed origin p f hop v (copy time e) w n =
    subst
      (λ b.
        Followed (on_data_recv w false f.src b n)
          (on_data_recv w false origin (media_sync_bytes p) n))
      (sym e)
      (on_data_recv_relayed w f.src (copy_of origin hop time p) n v.seq
        (omega (arith, length-media_sync_bytes p, v.layer)) (starts p))

-- A packet that is on the air gets to the end of any chain of stations that does not take it past
-- MAX_HOPS, each of which can forward it, with a slot free, and polls after the delay that it drew,
-- with no wrap of millis() between: from the network as it is, one is reached in which a frame is on
-- the air that is as many hops older as the chain is long, and that whoever hears it follows, and
-- tells its host, exactly as the packet heard from its master.
pub chain_delivers :
    (origin : Mac) (p : MediaSyncPacket) (hs : List Hop) (net : Net) (k hop : ℕ) (f : Frame)
    → MediaSyncPacketIsValid p
    → get_elem? net.air k ≡ some f
    → Carries origin p f hop
    → ChainIsReady origin p net hs
    → hop + length hs ≤ max_hops
    → (after : Net) × Reach net after
      × ((j : ℕ) × (g : Frame) × (get_elem? after.air j ≡ some g)
          × Carries origin p g (hop + length hs)
          × ((w : World) (n : Node)
              → Followed
                  (on_data_recv w false g.src g.bytes n)
                  (on_data_recv w false origin (media_sync_bytes p) n)))
chain_delivers origin p [] net k hop f v at c r l =
    let c' = subst (Carries origin p f) (omega arith) c in
    (net, here, (k, f, at, c', Carries-Followed origin p f hop v c))
chain_delivers origin p (h ∷ hs) net k hop f v at c (ready, apart, rest) l =
    let once = heard_and_polled h.world h.polled_at h.index h.station f net in
    let (r, (j, g, at', c')) =
      hears_and_polls h.world h.heard_at h.polled_at h.index k hop h.station f net origin p
        ready.listed at c v (omega (arith, l)) ready.able ready.clock ready.late ready.epoch in
    let (after, r', (j', g', at'', c'', follows)) =
      chain_delivers origin p hs once j (hop + 1) g v at' c'
        (others_kept origin p h.world h.polled_at h.index h.station f net hs apart rest)
        (omega (arith, l)) in
    (
      after,
      Reach-trans net once after r r',
      (j', g', at'', subst (Carries origin p g') (omega arith) c'', follows),
    )
