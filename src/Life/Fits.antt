-- ===== src/Life/Fits.antt =====
-- The values that the tables of a node hold fit their C types, at any time of its life.
use mathlib.Core.Path.{subst}
use nowde.Prelude.{
  ℕ, zero, suc, ◌^◌, ◌<◌, ◌≡◌, refl, ap, sym, inl, inr, Bool, true, List, [], ◌∷◌, All,
  All-replicate, length, map, arith, u8,
}
use nowde.Codec.RoundTrip.{IsByte}
use nowde.Config.{max_senders, max_receivers}
use nowde.Wire.{Mac}
use nowde.Tables.{ReceiverEntry}
use nowde.Tables.Fits.{
  MacFits, SenderFits, ReceiverFits, TableFits, handle_sender_beacon-Fits,
  handle_receiver_info-Fits, cleanup_sender_table-Fits, cleanup_receiver_table-Fits,
}
use nowde.Node.{Node, World, empty_receiver}
use nowde.Sysex.Tables.{KeepsTables, apply_role-KeepsTables, handle_sysex_message-KeepsTables}
use nowde.Receive.{on_data_recv}
use nowde.Receive.Cases.{on_data_recv-cases}
use nowde.Receive.Registry.{media-KeepsTables}
use nowde.Task.{Tasks, sender_turn}
use nowde.Boot.{Store, Build, setup, resolve_boot, power_on, load_subscription}
use nowde.Life.{Event, power_up, live_all}
use nowde.Life.Runs.{IsKept, HearsOnly, life-keeps}
use nowde.Life.Sound.{sender_turn-tables}

-- Both tables have their size, and each field of each entry is within its type: bytes, 16-bit and
-- 32-bit words, buffers of 16 and 8 bytes.
pub record NodeFits (n : Node) : Type 0 where
  pub senders : TableFits SenderFits max_senders n.senders
  pub receivers : TableFits ReceiverFits max_receivers n.receivers

-- Bytes, from an address, at a 32-bit time.
abbrev pub IsFrame : World → Mac → List ℕ → Type 0
IsFrame w src bytes = (w.now < 2 ^ 32) × MacFits src × All IsByte bytes

empty_receiver-Fits : ReceiverFits empty_receiver
empty_receiver-Fits = record {
  mac = omega arith;
  layer = (refl, omega arith);
  version = (refl, omega arith);
  last_seen = omega arith;
  media_index = omega arith;
  sync_quality = omega arith;
  sync_gaps = omega arith;
}

cleared-Fits :
    (k : ℕ) (t : List ReceiverEntry)
    → length t ≡ k
    → TableFits ReceiverFits k (map (λ e. empty_receiver) t)
cleared-Fits k [] l = (l, tt)
cleared-Fits zero (e ∷ t) l = absurd (omega (arith, l))
cleared-Fits (suc k) (e ∷ t) l =
    let (l', h) = cleared-Fits k t (omega (arith, l)) in (ap suc l', (empty_receiver-Fits, h))

KeepsTables-NodeFits : (n m : Node) → KeepsTables n m → NodeFits n → NodeFits m
KeepsTables-NodeFits n m k f = record {
  senders = subst (TableFits SenderFits max_senders) (sym k.0) f.senders;
  receivers = elim k.1 [
    | inl e ↦ subst (TableFits ReceiverFits max_receivers) (sym e) f.receivers
    | inr e ↦
        subst (TableFits ReceiverFits max_receivers) (sym e)
          (cleared-Fits max_receivers n.receivers f.receivers.0)
  ];
}

pub on_data_recv-NodeFits :
    (w : World) (mesh_handled : Bool) (src : Mac) (bytes : List ℕ) (n : Node)
    → IsFrame w src bytes
    → NodeFits n
    → NodeFits ((on_data_recv w mesh_handled src bytes n).0)
on_data_recv-NodeFits w mesh_handled src bytes n (late, m, b) f =
    let keeps = media-KeepsTables w src bytes n in
    on_data_recv-cases NodeFits w mesh_handled src bytes n f
      (KeepsTables-NodeFits n _ (handle_sysex_message-KeepsTables w (u8 (length bytes)) bytes n) f)
      (record {
        senders = handle_sender_beacon-Fits w.now src max_senders late m n.senders f.senders;
        receivers = f.receivers;
      })
      (record {
        senders = f.senders;
        receivers =
            handle_receiver_info-Fits w.now src max_receivers late m bytes b n.receivers
              f.receivers;
      })
      (KeepsTables-NodeFits n _ keeps.0 f) (KeepsTables-NodeFits n _ keeps.1 f)

sender_turn-NodeFits :
    (now : ℕ) (t : Tasks) → NodeFits t.node → NodeFits ((sender_turn now t).0.node)
sender_turn-NodeFits now t f =
    let (masters, slaves, role, mode) = sender_turn-tables now t in
    record {
      senders = subst (TableFits SenderFits max_senders) (sym masters) f.senders;
      receivers = elim slaves [
        | inl e ↦ subst (TableFits ReceiverFits max_receivers) (sym e) f.receivers
        | inr e ↦
            subst (TableFits ReceiverFits max_receivers) (sym e)
              (cleanup_receiver_table-Fits now max_receivers t.node.receivers f.receivers)
      ];
    }

setup-NodeFits :
    (w : World) (b : Build) (board : ℕ) (s : Store) → NodeFits ((setup w b board true s).0)
unfolding setup resolve_boot power_on
setup-NodeFits w b board s =
    let n = load_subscription b board s in
    KeepsTables-NodeFits n _ (apply_role-KeepsTables n.role n) (record {
      senders = (
        refl,
        All-replicate SenderFits max_senders _
            (record { mac = omega arith; last_seen = omega arith }),
      );
      receivers =
          (refl, All-replicate ReceiverFits max_receivers empty_receiver empty_receiver-Fits);
    })

NodeFits-IsKept : IsKept IsFrame NodeFits
NodeFits-IsKept = record {
  boot_keeps = setup-NodeFits;
  hear_keeps = on_data_recv-NodeFits;
  sysex_keeps = λ w len bytes n f.
      KeepsTables-NodeFits n _ (handle_sysex_message-KeepsTables w len bytes n) f;
  note_keeps = λ n f. record { senders = f.senders; receivers = f.receivers };
  sender_keeps = sender_turn-NodeFits;
  clean_keeps = λ now n f. record {
    senders = cleanup_sender_table-Fits now max_senders n.senders f.senders;
    receivers = f.receivers;
  };
  sync_keeps = λ g n f. record { senders = f.senders; receivers = f.receivers };
  relay_keeps = λ r n f. record { senders = f.senders; receivers = f.receivers };
}

-- Whatever happens to a node from a boot on, as long as what it hears on the mesh are bytes, from
-- addresses of bytes, at 32-bit times: both tables have their ten entries, and every field of every
-- entry is within its C type, each layer a buffer of 16 bytes, each version one of 8.
pub life-NodeFits :
    (w : World) (b : Build) (board : ℕ) (has_display : Bool) (s : Store) (es : List Event)
    → All (HearsOnly IsFrame) es
    → NodeFits ((live_all es (power_up w b board has_display s)).tasks.node)
life-NodeFits w b board has_display s es h = life-keeps NodeFits-IsKept w b board has_display s es h
