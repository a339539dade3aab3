-- ===== src/Life/Sound.antt =====
-- What holds of a node at any time of its life.
use mathlib.Core.Option.{some-injective}
use mathlib.Core.Path.{subst}
use nowde.Prelude.{
  ℕ, zero, suc, ◌≡◌, refl, ap, sym, ◌∙◌, ◌⊎◌, inl, inr, Bool, true, false, List, [], ◌∷◌, All,
  replicate, get_elem?, arith, some,
}
use nowde.Config.{max_senders, max_receivers}
use nowde.Wire.{Mac}
use nowde.Tables.{is_sender, is_receiver, cleanup_receiver_table}
use nowde.Tables.Unique.{Unique}
use nowde.Tables.Aging.{cleanup_sender_table-Unique, cleanup_receiver_table-Unique}
use nowde.Node.{Node, World, empty_receiver}
use nowde.Sysex.Roles.{SlaveIsQuiet, handle_sysex_message-SlaveIsQuiet, apply_role-SlaveIsQuiet}
use nowde.Receive.Registry.{
  KeepsTables-Unique, TablesAreUnique, on_data_recv-TablesAreUnique,
  handle_sysex_message-TablesAreUnique,
}
use nowde.Receive.Separation.{on_data_recv-SlaveIsQuiet}
use nowde.Task.{Tasks, sender_turn}
use nowde.Task.Interrupted.{Heard}
use nowde.Boot.{Store, Build, setup, resolve_boot, power_on, load_subscription}
use nowde.Sysex.Tables.{apply_role-KeepsTables}
use nowde.Life.{Event, boots, hears, serves, turns, ticks, power_up, live_all}
use nowde.Life.Runs.{IsKept, HearsOnly, AllAllowed, life-keeps}

-- "Sender mode operations" clean the table of slaves or leave it, and leave the masters, the role and
-- the mode.
pub sender_turn-tables :
    (now : ℕ) (t : Tasks)
    → let n = t.node in
      let m = (sender_turn now t).0.node in
      (m.senders ≡ n.senders)
      × ((m.receivers ≡ n.receivers) ⊎ (m.receivers ≡ (cleanup_receiver_table now n.receivers).0))
      × (m.role ≡ n.role)
      × (m.sender_mode ≡ n.sender_mode)
unfolding sender_turn
sender_turn-tables now t = (ground arith, ground arith, ground arith, ground arith)

-- No slave is in sender mode, and nobody is listed twice.
pub record NodeIsSound (n : Node) : Type 0 where
  pub quiet : SlaveIsQuiet n
  pub unique : TablesAreUnique n

Unique-of :
    {A : Type 0} (lists : Mac → A → Bool) (old cleaned new : List A)
    → (new ≡ old) ⊎ (new ≡ cleaned)
    → Unique lists old
    → Unique lists cleaned
    → Unique lists new
Unique-of lists old cleaned new (inl e) u v = subst (Unique lists) (sym e) u
Unique-of lists old cleaned new (inr e) u v = subst (Unique lists) (sym e) v

sender_turn-NodeIsSound :
    (now : ℕ) (t : Tasks) → NodeIsSound t.node → NodeIsSound ((sender_turn now t).0.node)
sender_turn-NodeIsSound now t s =
    let (masters, slaves, role, mode) = sender_turn-tables now t in
    record {
      quiet = λ e. mode ∙ s.quiet (sym role ∙ e);
      unique = record {
        masters = subst (Unique is_sender) (sym masters) s.unique.masters;
        slaves =
            Unique-of is_receiver t.node.receivers _ _ slaves s.unique.slaves
              (cleanup_receiver_table-Unique now t.node.receivers s.unique.slaves);
      };
    }

-- What is neither a table nor the role nor a mode may change.
same-NodeIsSound :
    (n m : Node)
    → m.role ≡ n.role
    → m.sender_mode ≡ n.sender_mode
    → m.senders ≡ n.senders
    → m.receivers ≡ n.receivers
    → NodeIsSound n
    → NodeIsSound m
same-NodeIsSound n m role mode masters slaves s = record {
  quiet = λ e. mode ∙ s.quiet (sym role ∙ e);
  unique = record {
    masters = subst (Unique is_sender) (sym masters) s.unique.masters;
    slaves = subst (Unique is_receiver) (sym slaves) s.unique.slaves;
  };
}

get_elem?-replicate :
    {A : Type 0} (k i : ℕ) (a x : A) → get_elem? (replicate k a) i ≡ some x → x ≡ a
get_elem?-replicate zero i a x g = absurd (cc)
get_elem?-replicate (suc k) zero a x g = sym (some-injective a x g)
get_elem?-replicate (suc k) (suc i) a x g = get_elem?-replicate k i a x g

-- A table of inactive entries lists nobody.
inactive-Unique :
    {A : Type 0} (lists : Mac → A → Bool) (a : A) (k : ℕ)
    → ((m : Mac) → lists m a ≡ false)
    → Unique lists (replicate k a)
inactive-Unique lists a k off i j x y m gi gj li lj =
    let same = get_elem?-replicate k i a x gi in absurd (cc (ap (lists m) same, li, off m))

setup-NodeIsSound :
    (w : World) (b : Build) (board : ℕ) (s : Store) → NodeIsSound ((setup w b board true s).0)
unfolding setup resolve_boot power_on
setup-NodeIsSound w b board s =
    let n = load_subscription b board s in
    record {
      quiet = apply_role-SlaveIsQuiet n.role n (λ e. refl);
      unique = KeepsTables-Unique n _ (apply_role-KeepsTables n.role n) (record {
        masters = inactive-Unique is_sender _ max_senders (λ m. refl);
        slaves = inactive-Unique is_receiver empty_receiver max_receivers (λ m. refl);
      });
    }

NodeIsSound-IsKept : IsKept (λ w src bytes. Unit {0}) NodeIsSound
NodeIsSound-IsKept = record {
  boot_keeps = setup-NodeIsSound;
  hear_keeps = λ w mesh_handled src bytes n h s. record {
    quiet = on_data_recv-SlaveIsQuiet w mesh_handled src bytes n s.quiet;
    unique = on_data_recv-TablesAreUnique w mesh_handled src bytes n s.unique;
  };
  sysex_keeps = λ w len bytes n s. record {
    quiet = handle_sysex_message-SlaveIsQuiet w len bytes n s.quiet;
    unique = handle_sysex_message-TablesAreUnique w len bytes n s.unique;
  };
  note_keeps = λ n s. same-NodeIsSound n _ refl refl refl refl s;
  sender_keeps = sender_turn-NodeIsSound;
  clean_keeps = λ now n s. record {
    quiet = s.quiet;
    unique = record {
      masters = cleanup_sender_table-Unique now n.senders s.unique.masters;
      slaves = s.unique.slaves;
    };
  };
  sync_keeps = λ f n s. same-NodeIsSound n _ refl refl refl refl s;
  relay_keeps = λ r n s. same-NodeIsSound n _ refl refl refl refl s;
}

any_frame : (hs : List Heard) → AllAllowed (λ w src bytes. Unit {0}) hs
any_frame [] = tt
any_frame (h ∷ hs) = (tt, any_frame hs)

hears_anything : (es : List Event) → All (HearsOnly (λ w src bytes. Unit {0})) es
hears_anything [] = tt
hears_anything (boots w b board d ∷ es) = (tt, hears_anything es)
hears_anything (hears w h src bytes ∷ es) = (tt, hears_anything es)
hears_anything (serves w a g ps ∷ es) = (tt, hears_anything es)
hears_anything (turns w hs ∷ es) = (any_frame hs, hears_anything es)
hears_anything (ticks now s r c ∷ es) = (tt, hears_anything es)

-- Whatever happens to a node from a boot on, in whatever order (frames of any kind on the mesh, packets
-- from the host, turns of the tasks, with frames that are heard in the middle of one, the button,
-- further boots), and whatever is in the store at first:
-- at any time, if its role is slave it is not in sender mode, and no master and no slave is listed
-- twice.
pub life-NodeIsSound :
    (w : World) (b : Build) (board : ℕ) (has_display : Bool) (s : Store) (es : List Event)
    → NodeIsSound ((live_all es (power_up w b board has_display s)).tasks.node)
life-NodeIsSound w b board has_display s es =
    life-keeps NodeIsSound-IsKept w b board has_display s es (hears_anything es)
