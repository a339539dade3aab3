-- ===== src/Network.antt =====
-- Several nodes on the air, running src/esp_now_handlers.cpp and src/mesh_relay.cpp: masters that
-- broadcast MEDIA_SYNC frames, and nodes that hear frames, flood them and poll their forwards, in any
-- order. A frame on the air may be heard by any node, at any time, any number of times or never.
pub mod Genuine
pub mod Integrity
pub mod Delivery
pub mod Chain
pub mod Latency
use nowde.Prelude.{ℕ, Option, some, ◌≡◌, false, List, [], ◌∷◌, ◌++◌, map, set, get_elem?, length}
use nowde.Wire.{Mac, MediaSyncPacket, media_sync_bytes}
use nowde.Wire.RoundTrip.{MediaSyncPacketIsValid}
use nowde.Relay.{PendingRelay, Relay, process_pending_relays}
use nowde.Node.{Node, World}
use nowde.Receive.{on_data_recv}

-- A frame on the air, with the station that sent it.
pub record Frame : Type 0 where
  pub src : Mac
  pub bytes : List ℕ

-- A node with its address.
pub record Station : Type 0 where
  pub mac : Mac
  pub node : Node

-- The nodes, the frames on the air, and the packets that masters broadcast, the last one first.
pub record Net : Type 0 where
  pub stations : List Station
  pub air : List Frame
  pub said : List (Mac × MediaSyncPacket)

-- The frames that a station broadcasts.
abbrev pub from : Mac → List (List ℕ) → List Frame
from mac frames = map (λ bytes. record { src = mac; bytes = bytes }) frames

-- A master broadcasts a packet.
unfoldable pub speak : Mac → MediaSyncPacket → Net → Net
speak mac p net = record net {
  air = record { src = mac; bytes = media_sync_bytes p } ∷ net.air;
  said = (mac, p) ∷ net.said;
}

-- Station `i`, which is `s`, hears a frame.
unfoldable pub hear : World → ℕ → Station → Frame → Net → Net
hear w i s f net = record net {
  stations = set net.stations i (record s { node = (on_data_recv w false f.src f.bytes s.node).0 });
}

-- Station `i`, which is `s`, polls its forwards at time `now`, as `espnowTask` does.
unfoldable pub poll : ℕ → ℕ → Station → Net → Net
poll now i s net =
    let (r, frames) = process_pending_relays now s.node.relay in
    record net {
      stations = set net.stations i (record s { node = record s.node { relay = r } });
      air = from s.mac frames ++ net.air;
    }

-- One step of the network.
pub data Step (net : Net) : Net → Type 0 where
  speaks : (mac : Mac) (p : MediaSyncPacket) → MediaSyncPacketIsValid p → Step net (speak mac p net)
  hears :
      (w : World) (i : ℕ) (s : Station) (k : ℕ) (f : Frame)
      → get_elem? net.stations i ≡ some s
      → get_elem? net.air k ≡ some f
      → Step net (hear w i s f net)
  polls :
      (now i : ℕ) (s : Station) → get_elem? net.stations i ≡ some s → Step net (poll now i s net)

pub data Reach (start : Net) : Net → Type 0 where
  here : Reach start start
  next : {net net' : Net} → Reach start net → Step net net' → Reach start net'
