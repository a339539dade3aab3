-- ===== src/Tests/Delivery.antt =====
-- The theorems on a cue's way, on the bytes of an update and on the network, at concrete inputs.
use nowde.Prelude.{strn_eq, strncpy, ◌≡◌, refl, inl, false, [], ◌∷◌, arith}
use nowde.Tests.{mac_a, mac_b, layer_l1, slave, master, world}
use nowde.Wire.{media_sync_bytes, broadcast_address}
use nowde.Relay.{relay_frame}
use nowde.Effects.{relay}
use nowde.Sync.{layer_matches}
use nowde.Sysex.{handle_sysex_message}
use nowde.Replies.{frame}
use nowde.Receive.{on_data_recv}
use nowde.Delivery.{Cue, CueIsValid, cue_body, cue_packet}
use nowde.Delivery.Air.{Listens, Led, copy_of, cue_is_followed}

-- Medium 7 of layer L1 at 100 s, playing.
abbrev cue : Cue
cue = record { layer = layer_l1; index = 7; position = 100000; state = 1; volume = 50; flags = 1 }

cue-CueIsValid : CueIsValid cue
cue-CueIsValid = record {
  layer_size = refl;
  layer = ground arith;
  index = omega arith;
  position = omega arith;
  state = omega arith;
  volume = omega arith;
  flags = omega arith;
}

slave-Listens : Listens world mac_a (cue_packet world master cue).layer slave
unfolding layer_matches strn_eq strncpy
slave-Listens = record { receives = refl; is_slave = refl; takes = refl; lock = inl refl }

cue_example :
    ((handle_sysex_message world 29 (frame 0x10 (cue_body cue)) master).1
      ≡ relay broadcast_address (media_sync_bytes (cue_packet world master cue)) ∷ [])
    × Led world mac_a
        (cue_packet world master cue)
        slave
        (on_data_recv world false mac_a (media_sync_bytes (cue_packet world master cue)) slave).0
    × Led world mac_a
        (cue_packet world master cue)
        slave
        (on_data_recv world false mac_b
          (relay_frame (copy_of mac_a 2 6010 (cue_packet world master cue)))
          slave).0
cue_example =
    cue_is_followed world world mac_a mac_b 2 6010 master slave cue cue-CueIsValid (omega arith)
      refl refl slave-Listens
