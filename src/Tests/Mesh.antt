-- ===== src/Tests/Mesh.antt =====
-- The mesh's theorems at concrete inputs.
use nowde.Prelude.{
  ℕ, zero, suc, ◌≡◌, refl, true, false, some, [], ◌∷◌, All, arith, if◌then◌else◌, ◌≤◌, inr,
}
use nowde.Tests.{
  mac_a, mac_b, own_mac, playing, relay_empty, relay_busy, slave, master, world, receiver_b,
  follows_nobody,
}
use nowde.Wire.{mac_equal, media_sync_bytes}
use nowde.Slots.{find_slot}
use nowde.Relay.{PendingRelay, awaits, handle_flood_candidate, relay_frame}
use nowde.Relay.Dedup.{
  last_seen, handle_flood_candidate_duplicate, last_seen-handle_flood_candidate,
}
use nowde.Relay.Hops.{Forwards, minted, relayed, Travelled-le-max_hops}
use nowde.Receive.{on_data_recv}
use nowde.Receive.Relayed.{Followed, on_data_recv_relayed}
use nowde.Receive.Separation.{on_data_recv_sender}
use nowde.Tables.{cleanup_receiver_table}
use nowde.Tables.Timeouts.{ReceiverIsRecent, cleanup_receiver_table_recent}
use nowde.Effects.{SendResult, sent, no_mem}

-- The first forward of frame 40 of master a.
abbrev first_hop : Forwards 0 1
unfolding handle_flood_candidate mac_equal find_slot media_sync_bytes
first_hop = record {
  my_mac = own_mac;
  origin = mac_a;
  now = 6000;
  delay = 10;
  seq = 40;
  inner = media_sync_bytes playing;
  is_relay = false;
  before = relay_empty;
  none_pending = (refl, (refl, tt));
  index = 0;
  held = record {
    active = true;
    send_time = 6010;
    origin = mac_a;
    seq = 40;
    hop = 1;
    payload = media_sync_bytes playing;
  };
  holds = refl;
  awaited = refl;
  stamped = refl;
}

travelled_example : (◌≡◌ {A = ℕ} 1 1) × (1 ≤ 3)
travelled_example = Travelled-le-max_hops (relayed minted first_hop)

duplicate_example :
    ((handle_flood_candidate own_mac 6000 10 mac_a 40 0 (3 ∷ []) false relay_busy).pending
      ≡ relay_busy.pending)
    × All
        (λ p. awaits mac_a 40 p ≡ false)
        (handle_flood_candidate own_mac 6000 10 mac_a 40 0 (3 ∷ []) true relay_busy).pending
unfolding mac_equal last_seen
duplicate_example =
    handle_flood_candidate_duplicate own_mac mac_a 6000 10 40 0 (3 ∷ []) relay_busy refl refl

marked_example :
    last_seen
      (handle_flood_candidate own_mac 6000 10 mac_b 7 0 (3 ∷ []) false relay_busy).origins
      mac_a
    ≡ (if mac_equal mac_b mac_a then some 7 else last_seen relay_busy.origins mac_a)
unfolding mac_equal find_slot
marked_example =
    last_seen-handle_flood_candidate own_mac mac_b mac_a 6000 10 7 0 (3 ∷ []) false relay_busy refl
      (omega arith) (inr λ e. absurd (ground arith))

-- A forward for 4 ms before the wrap, polled 6 ms after it.
abbrev late : PendingRelay
late = record {
  active = true;
  send_time = 4294967292;
  origin = mac_a;
  seq = 40;
  hop = 1;
  payload = [];
}

-- Frame 40 of master a, one hop away from it.
abbrev carried : PendingRelay
carried = record late { payload = media_sync_bytes playing }

relayed_example :
    Followed
      (on_data_recv world false mac_b (relay_frame carried) slave)
      (on_data_recv world false mac_a (media_sync_bytes playing) slave)
unfolding media_sync_bytes
relayed_example = on_data_recv_relayed world mac_b carried slave (omega arith) (omega arith) refl

drives_example :
    (on_data_recv world false mac_a (media_sync_bytes playing) master).0.follower ≡ follows_nobody
unfolding media_sync_bytes
drives_example =
    on_data_recv_sender world false mac_a (media_sync_bytes playing) master refl
      (λ e. absurd (ground arith))

recent_receivers_example :
    All (ReceiverIsRecent 9000) ((cleanup_receiver_table 9000 (receiver_b ∷ [])).0)
recent_receivers_example = cleanup_receiver_table_recent 9000 (receiver_b ∷ [])

-- The queue is full twice.
abbrev busy_twice : ℕ → SendResult
busy_twice zero = no_mem
busy_twice (suc zero) = no_mem
busy_twice (suc (suc n)) = sent
