-- ===== src/Tests/Network.antt =====
-- The theorems on the network at a concrete run: a master's packet is heard and forwarded by a slave.
use nowde.Prelude.{ℕ, ◌≤◌, ◌≡◌, refl, inl, some, false, List, [], ◌∷◌, get_elem?, arith}
use nowde.Tests.{mac_a, mac_b, own_mac, playing, slave, world}
use nowde.Wire.{Mac, MediaSyncPacket, media_sync_bytes, mac_equal}
use nowde.Wire.RoundTrip.{MediaSyncPacketIsValid}
use nowde.Node.{Node, World}
use nowde.Receive.{on_data_recv}
use nowde.Receive.Relayed.{Followed}
use nowde.Relay.{relay_frame}
use nowde.Relay.Firing.{millis_at}
use nowde.Delivery.Air.{copy_of}
use nowde.Relay.Dedup.{last_seen}
use nowde.Network.{Frame, Station, Net, speak, hear, hears, polls, Reach, here, next, speaks}
use nowde.Network.Genuine.{Said, NetIsGenuine, relayed}
use nowde.Network.Integrity.{Reach-NetIsGenuine, Reach-Followed}
use nowde.Network.Latency.{heard_goes_out_once}
use nowde.Relay.Timing.{Adds, without, broadcasts}
use nowde.Network.Chain.{Hop, ChainIsReady, chain_delivers}
use nowde.Network.Delivery.{Carries, itself, CanForward, heard_and_polled}

abbrev relay_station : Station
relay_station = record { mac = own_mac; node = slave }

-- One slave, and nothing on the air.
abbrev quiet_net : Net
quiet_net = record { stations = relay_station ∷ []; air = []; said = [] }

quiet_net-NetIsGenuine : NetIsGenuine quiet_net
quiet_net-NetIsGenuine = record { air = tt; stations = (((λ e. cc), ((λ e. cc), tt)), tt) }

pub playing-MediaSyncPacketIsValid : MediaSyncPacketIsValid playing
playing-MediaSyncPacketIsValid = record {
  layer = refl;
  position = omega arith;
  timestamp = omega arith;
  seq = omega arith;
}

abbrev broadcast : Frame
broadcast = record { src = mac_a; bytes = media_sync_bytes playing }

abbrev spoken_net : Net
spoken_net = record {
  stations = relay_station ∷ [];
  air = broadcast ∷ [];
  said = (mac_a, playing) ∷ [];
}

spoken : Reach quiet_net spoken_net
unfolding speak
spoken = next here (speaks mac_a playing playing-MediaSyncPacketIsValid)

slave-CanForward : CanForward world mac_a playing slave
unfolding mac_equal last_seen
slave-CanForward = record {
  foreign = refl;
  unseen = λ e. cc;
  slot = 0;
  idle = _;
  at = refl;
  inactive = refl;
}

abbrev forwarded_net : Net
forwarded_net = heard_and_polled world 6010 0 relay_station broadcast spoken_net

forwarded : Reach quiet_net forwarded_net
unfolding hear
forwarded = next (next spoken (hears world 0 relay_station 0 broadcast refl refl)) (
    polls (millis_at 6010) 0
      (record relay_station {
        node = (on_data_recv world false mac_a (media_sync_bytes playing) slave).0;
      })
      refl)

integrity_example : NetIsGenuine forwarded_net
integrity_example = Reach-NetIsGenuine quiet_net forwarded_net forwarded quiet_net-NetIsGenuine

-- A forward that is two hops old, from another slave.
abbrev second_hand : Frame
second_hand = record { src = mac_b; bytes = relay_frame (copy_of mac_a 2 5990 playing) }

abbrev relayed_net : Net
relayed_net = record {
  stations = relay_station ∷ [];
  air = second_hand ∷ [];
  said = (mac_a, playing) ∷ [];
}

relayed_net-NetIsGenuine : NetIsGenuine relayed_net
relayed_net-NetIsGenuine = record {
  air = (
    relayed mac_a playing 2 5990 playing-MediaSyncPacketIsValid (inl (refl, refl)) (omega arith)
        (omega arith) refl,
    tt,
  );
  stations = (((λ e. cc), ((λ e. cc), tt)), tt);
}

transparent_example :
    (origin : Mac) × (p : MediaSyncPacket) × Said origin p relayed_net.said
    × Followed
        (on_data_recv world false mac_b second_hand.bytes slave)
        (on_data_recv world false origin (media_sync_bytes p) slave)
transparent_example =
    Reach-Followed relayed_net relayed_net 0 second_hand world slave here relayed_net-NetIsGenuine
      refl

-- A second slave, which hears only the first one.
abbrev far_world : World
far_world = record world { now = 6020; my_mac = mac_b }

abbrev two_slaves : Net
two_slaves = record {
  stations = relay_station ∷ record { mac = mac_b; node = slave } ∷ [];
  air = broadcast ∷ [];
  said = (mac_a, playing) ∷ [];
}

abbrev near_hop : Hop
near_hop = record {
  world = world;
  heard_at = 6000;
  polled_at = 6010;
  index = 0;
  station = relay_station;
}

abbrev far_hop : Hop
far_hop = record {
  world = far_world;
  heard_at = 6020;
  polled_at = 6031;
  index = 1;
  station = record { mac = mac_b; node = slave };
}

far-CanForward : CanForward far_world mac_a playing slave
unfolding mac_equal last_seen
far-CanForward = record {
  foreign = refl;
  unseen = λ e. cc;
  slot = 0;
  idle = _;
  at = refl;
  inactive = refl;
}

chain-ChainIsReady : ChainIsReady mac_a playing two_slaves (near_hop ∷ far_hop ∷ [])
chain-ChainIsReady = (
  record {
    listed = refl;
    able = slave-CanForward;
    clock = omega arith;
    late = omega arith;
    epoch = omega arith;
  },
  (omega arith, tt),
  (
    record {
      listed = refl;
      able = far-CanForward;
      clock = omega arith;
      late = omega arith;
      epoch = omega arith;
    },
    tt,
    tt,
  ),
)

chain_example :
    (after : Net) × Reach two_slaves after
    × ((j : ℕ) × (g : Frame) × (get_elem? after.air j ≡ some g)
        × Carries mac_a playing g 2
        × ((w : World) (n : Node)
            → Followed
                (on_data_recv w false g.src g.bytes n)
                (on_data_recv w false mac_a (media_sync_bytes playing) n)))
chain_example =
    chain_delivers mac_a playing (near_hop ∷ far_hop ∷ []) two_slaves 0 0 broadcast
      playing-MediaSyncPacketIsValid refl (itself refl refl refl) chain-ChainIsReady (omega arith)

-- Polls 11 ms apart.
latency_example :
    let r = (on_data_recv world false broadcast.src broadcast.bytes slave).0.relay in
    let copy = copy_of mac_a 1 6010 playing in
    let ts : List ℕ = 6008 ∷ 6019 ∷ 6030 ∷ [] in
    (j : ℕ) × (t : ℕ) × (get_elem? r.pending j ≡ some copy)
    × Adds (t, relay_frame copy) (broadcasts ts (without j copy r)) (broadcasts ts r)
    × (6010 ≤ t)
    × (t ≤ 6042)
latency_example =
    heard_goes_out_once world mac_a playing broadcast 0 slave 12 (6008 ∷ 6019 ∷ 6030 ∷ [])
      (itself refl refl refl) playing-MediaSyncPacketIsValid (omega arith) slave-CanForward
      (omega arith) (omega arith) (omega arith) (omega arith)
