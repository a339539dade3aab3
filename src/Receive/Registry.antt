-- ===== src/Receive/Registry.antt =====
-- The tables of masters and of slaves, whatever a node hears.
use nowde.Prelude.{
  ℕ, zero, suc, ◌≡◌, sym, ap, inl, inr, Bool, false, some, List, [], ◌∷◌, map, length, get_elem?,
  arith, u8,
}
use mathlib.Core.Option.{some-injective}
use mathlib.Core.Path.{subst}
use nowde.Wire.{Mac}
use nowde.Tables.{ReceiverEntry, is_sender, is_receiver}
use nowde.Tables.Unique.{Unique, handle_sender_beacon-Unique, handle_receiver_info-Unique}
use nowde.Node.{Node, World, empty_receiver}
use nowde.Sysex.{handle_sysex_message}
use nowde.Sysex.Tables.{KeepsTables, handle_sysex_message-KeepsTables}
use nowde.Receive.Cases.{on_data_recv-cases}
use nowde.Receive.{consume, flood, on_media_sync, on_mesh_relay, on_data_recv}

-- No master and no slave is listed twice.
pub record TablesAreUnique (n : Node) : Type 0 where
  pub masters : Unique is_sender n.senders
  pub slaves : Unique is_receiver n.receivers

abbrev cleared : List ReceiverEntry → List ReceiverEntry
cleared = map (λ e. empty_receiver)

get_elem?-cleared :
    (t : List ReceiverEntry) (i : ℕ) (a : ReceiverEntry)
    → get_elem? (cleared t) i ≡ some a
    → a.active ≡ false
get_elem?-cleared [] i a g = absurd (cc)
get_elem?-cleared (e ∷ t) zero a g = ap (λ x. x.active) (sym (some-injective empty_receiver a g))
get_elem?-cleared (e ∷ t) (suc i) a g = get_elem?-cleared t i a g

cleared-Unique : (t : List ReceiverEntry) → Unique is_receiver (cleared t)
cleared-Unique t i j a b m g h la lb = let off = get_elem?-cleared t i a g in absurd (ground arith)

pub KeepsTables-Unique : (n m : Node) → KeepsTables n m → TablesAreUnique n → TablesAreUnique m
KeepsTables-Unique n m k u = record {
  masters = subst (Unique is_sender) (sym k.0) u.masters;
  slaves = elim k.1 [
    | inl e ↦ subst (Unique is_receiver) (sym e) u.slaves
    | inr e ↦ subst (Unique is_receiver) (sym e) (cleared-Unique n.receivers)
  ];
}

-- If no master and no slave was listed twice before a SysEx frame, none is after it.
pub handle_sysex_message-TablesAreUnique :
    (w : World) (len : ℕ) (bytes : List ℕ) (n : Node)
    → TablesAreUnique n
    → TablesAreUnique ((handle_sysex_message w len bytes n).0)
handle_sysex_message-TablesAreUnique w len bytes n u =
    KeepsTables-Unique n _ (handle_sysex_message-KeepsTables w len bytes n) u

pub media-KeepsTables :
    (w : World) (src : Mac) (bytes : List ℕ) (n : Node)
    → KeepsTables n ((on_media_sync w src bytes n).0) × KeepsTables n ((on_mesh_relay w bytes n).0)
unfolding on_media_sync on_mesh_relay consume flood
media-KeepsTables w src bytes n = (ground arith, ground arith)

-- If no master and no slave was listed twice before a node hears a frame, of any type and from
-- anyone, none is after it.
pub on_data_recv-TablesAreUnique :
    (w : World) (mesh_handled : Bool) (src : Mac) (bytes : List ℕ) (n : Node)
    → TablesAreUnique n
    → TablesAreUnique ((on_data_recv w mesh_handled src bytes n).0)
on_data_recv-TablesAreUnique w mesh_handled src bytes n u =
    let keeps = media-KeepsTables w src bytes n in
    on_data_recv-cases TablesAreUnique w mesh_handled src bytes n u
      (handle_sysex_message-TablesAreUnique w (u8 (length bytes)) bytes n u)
      (record {
        masters = handle_sender_beacon-Unique w.now src n.senders u.masters;
        slaves = u.slaves;
      })
      (record {
        masters = u.masters;
        slaves = handle_receiver_info-Unique w.now src bytes n.receivers u.slaves;
      })
      (KeepsTables-Unique n _ keeps.0 u) (KeepsTables-Unique n _ keeps.1 u)
