-- ===== src/Tests.antt =====
-- Test data: two masters, this node, a node that follows nobody yet, and what its chip answers.
pub mod Mesh
pub mod Follow
pub mod Host
pub mod Delivery
pub mod Network
pub mod Panel
pub mod Boot
pub mod Life
pub mod Turns
pub mod Usb
use nowde.Prelude.{ℕ, Bool, true, false, List, [], ◌∷◌, ◌++◌, replicate, length}
use nowde.Wire.{Mac, MediaSyncPacket, media_sync_bytes}
use nowde.Relay.{RelayOriginEntry, PendingRelay, Relay}
use nowde.Sync.{MediaSyncState, OriginLock, Follower, initial_sync, initial_lock}
use nowde.Node.{Node, World}
use nowde.Tables.{SenderEntry, ReceiverEntry}

abbrev pub mac_a : Mac
mac_a = record { m0 = 2; m1 = 10; m2 = 10; m3 = 10; m4 = 10; m5 = 1 }

abbrev pub mac_b : Mac
mac_b = record { m0 = 2; m1 = 11; m2 = 11; m3 = 11; m4 = 11; m5 = 2 }

abbrev pub own_mac : Mac
own_mac = record { m0 = 2; m1 = 12; m2 = 12; m3 = 12; m4 = 12; m5 = 3 }

-- "L1" and zeros.
abbrev pub layer_l1 : List ℕ
layer_l1 = b'L' ∷ b'1' ∷ replicate 14 0

abbrev pub playing : MediaSyncPacket
playing = record {
  layer = layer_l1;
  media_index = 7;
  position_ms = 1000;
  state = 1;
  mesh_timestamp = 500;
  volume = 50;
  flags = 1;
  seq = 40;
}

abbrev pub stopped : MediaSyncPacket
stopped = record playing { state = 0; flags = 0 }

abbrev pub empty_origin : RelayOriginEntry
empty_origin = record { mac = mac_b; last_seq = 0; valid = false }

abbrev pub idle : PendingRelay
idle = record { active = false; send_time = 0; origin = mac_b; seq = 0; hop = 1; payload = [] }

abbrev pub relay_empty : Relay
relay_empty = record { origins = empty_origin ∷ empty_origin ∷ []; pending = idle ∷ idle ∷ [] }

-- Frame 40 of master a is handled, and its forward is pending.
abbrev pub relay_busy : Relay
relay_busy = record {
  origins = record { mac = mac_a; last_seq = 40; valid = true } ∷ empty_origin ∷ [];
  pending =
      record { active = true; send_time = 20; origin = mac_a; seq = 40; hop = 1; payload = 3 ∷ [] }
      ∷ idle
      ∷ [];
}

abbrev pub follows_nobody : Follower
follows_nobody = record { sync = initial_sync; lock = initial_lock }

abbrev pub pinned_to_a : Follower
pinned_to_a = record {
  sync = initial_sync;
  lock = record { mac = mac_a; valid = true; pinned = true; last_heard = 100 };
}

-- Playing since 5 s.
abbrev pub is_playing : MediaSyncState
is_playing = record initial_sync {
  current_index = 7;
  current_state = 1;
  last_sync_time = 5000;
  last_sent_index = 7;
  last_seq = 39;
  have_seq = true;
}

abbrev pub sender_a : SenderEntry
sender_a = record { mac = mac_a; last_seen = 100; active = true }

abbrev pub receiver_b : ReceiverEntry
receiver_b = record {
  mac = mac_b;
  layer = layer_l1;
  version = replicate 8 0;
  last_seen = 100;
  active = true;
  connected = true;
  media_index = 7;
  sync_quality = 2;
  sync_gaps = 3;
}

abbrev pub slave : Node
slave = record {
  role = 0;
  stored_role = 127;
  board = 3;
  sender_mode = false;
  receiver_mode = true;
  host_resumed = false;
  lr_enabled = false;
  rf_simulation = false;
  rf_max_delay_ms = 400;
  subscribed_layer = layer_l1;
  follower = follows_nobody;
  senders = sender_a ∷ [];
  receivers = [];
  relay = relay_empty;
  delayed = [];
  master_relay = record { index = 0; position_ms = 0; state = 0; updated_at = 0 };
  ota = record { in_progress = false; total = 0; received = 0; start_time = 0 };
  media_seq = 0;
  last_running_state = 0;
}

abbrev pub master : Node
master = record slave { role = 1; board = 2; sender_mode = true; receivers = receiver_b ∷ [] }

-- An update of 300 bytes, 297 of them received.
abbrev pub updating : Node
updating = record slave {
  ota = record { in_progress = true; total = 300; received = 297; start_time = 0 };
}

abbrev pub world : World
world = record {
  now = 6000;
  mesh_now = 520;
  synced = true;
  my_mac = own_mac;
  reset_reason = 1;
  draw = 10;
  send_ok = true;
  peer_exists = true;
  update_running = false;
  update_begins = true;
  update_written = λ bytes. length bytes;
  update_ends = true;
}
