-- ===== src/Tests/Turns.antt =====
-- The theorem on turns that a packet interrupts, at a concrete input.
use nowde.Prelude.{◌≡◌, refl, inl, true, false, [], ◌∷◌, arith, IsInfix, strn_eq, strncpy}
use nowde.Tests.{mac_a, playing, slave, world}
use nowde.Tests.Network.{playing-MediaSyncPacketIsValid}
use nowde.Midi.{cc, stop}
use nowde.Sync.{layer_matches}
use nowde.Node.{Node, World}
use nowde.Effects.{midi}
use nowde.Delivery.Air.{Listens}
use nowde.Task.{Tasks}
use nowde.Task.Interrupted.{interrupted_turn}
use nowde.Task.Stale.{packet_heard, interrupted_turn_stale}

-- A slave whose policy is STOP.
abbrev careful : Node
careful = record slave {
  follower = record slave.follower {
    sync = record slave.follower.sync { stop_on_link_lost = true };
  };
}

careful-Listens : Listens world mac_a playing.layer careful
unfolding layer_matches strn_eq strncpy
careful-Listens = record { receives = refl; is_slave = refl; takes = refl; lock = inl refl }

abbrev tasks : Tasks
tasks = record {
  node = careful;
  resync = record {
    stuck_since = 0;
    last_action = 0;
    soft_resets = 0;
    gave_up = false;
    reboot_count = 0;
  };
  last_sender_beacon = 0;
  next_receiver_beacon = 0;
}

-- The turn began a millisecond before the packet.
abbrev earlier : World
earlier = record world { now = 5999 }

stale_example :
    let (stale, told) = interrupted_turn earlier (packet_heard world mac_a playing ∷ []) tasks in
    let fresh = (interrupted_turn world (packet_heard world mac_a playing ∷ []) tasks).0 in
    (stale.node.follower.sync.link_lost ≡ true)
    × (stale.node.follower.sync.current_state ≡ 0)
    × IsInfix (midi (cc 100 0) ∷ midi stop ∷ []) told
    × (fresh.node.follower.sync.link_lost ≡ false)
    × (fresh.node.follower.sync.current_state ≡ 1)
stale_example =
    interrupted_turn_stale earlier world world mac_a playing tasks playing-MediaSyncPacketIsValid
      refl careful-Listens refl (omega arith) (omega arith) refl
