-- ===== src/Life.antt =====
-- The firmware of one node as a whole, src/main.cpp: a boot, the radio callback, the MIDI task and the
-- ESP-NOW task, and the button, over the same globals, in any order. The radio callback
-- may also interrupt a turn of the ESP-NOW task; the other events run to their end.
pub mod Runs
pub mod Sound
pub mod Fits
pub mod Status
pub mod Turns
pub mod Sends
pub mod Report
use nowde.Prelude.{ℕ, Bool, true, false, not, List, [], ◌∷◌, ◌++◌, u32}
use nowde.Wire.{Mac}
use nowde.Usb.{Packet, Reader, fresh_reader}
use nowde.Usb.Queue.{UsbOut}
use nowde.Usb.Log.{Log, boot_log}
use nowde.Effects.{Effect}
use nowde.Node.{Node, World, load_reboot_count}
use nowde.Receive.{on_data_recv}
use nowde.Resync.{Resync}
use nowde.Task.{Tasks}
use nowde.Task.Interrupted.{Heard, interrupted_turn}
use nowde.Host.{Host, midi_process, post_outs, post_logs}
use nowde.Boot.{Store, Build, setup, store_all}
use nowde.Panel.{SyncState, Readings, Ui}
use nowde.Ui.{ui_init, Button, ui_tick, Screen}

-- The store, the globals, and the locals and statics of both tasks.
pub record Firmware : Type 0 where
  pub store : Store
  pub tasks : Tasks
  pub reader : Reader
  pub last_host_rx_time : ℕ
  pub out : UsbOut
  pub log : Log
  pub ui : Ui

-- What a handler's effects do to the queue, the log and the store.
unfoldable pub apply_effects : List Effect → Firmware → Firmware
apply_effects es f = record f {
  store = store_all es f.store;
  out = post_outs es f.out;
  log = post_logs es f.log;
}

-- What may happen to a node. A boot is one whose `esp_now_init` succeeds; a turn comes with the frames
-- that are heard in the middle of it.
pub data Event : Type 0 where
  boots : World → Build → ℕ → Bool → Event
  hears : World → Bool → Mac → List ℕ → Event
  serves : World → (ℕ → Bool) → (ℕ → ℕ) → List Packet → Event
  turns : World → List Heard → Event
  ticks : ℕ → SyncState → Readings → Button → Event

-- A node that comes up: the statics and locals at their initial values.
unfoldable pub power_up : World → Build → ℕ → Bool → Store → Firmware
power_up w b board has_display s =
    let (n, effects) = setup w b board true s in
    apply_effects effects (record {
      store = s;
      tasks = record {
        node = n;
        resync = record {
          stuck_since = 0;
          last_action = 0;
          soft_resets = 0;
          gave_up = false;
          reboot_count = load_reboot_count s.resyncrb;
        };
        last_sender_beacon = 0;
        next_receiver_beacon = 0;
      };
      reader = fresh_reader;
      last_host_rx_time = 0;
      out = record { queue = []; stalled_since = 0 };
      log = boot_log;
      ui = (ui_init has_display).0;
    })

-- The node as the MIDI task sees it.
abbrev pub host_of : Firmware → Host
host_of f = record {
  node = f.tasks.node;
  reader = f.reader;
  last_host_rx_time = f.last_host_rx_time;
  out = f.out;
  log = f.log;
}

abbrev pub with_node : Node → Firmware → Firmware
with_node n f = record f { tasks = record f.tasks { node = n } }

-- One event. `midi_process` has put its effects into the queue and the log itself.
unfoldable pub live : Event → Firmware → Firmware
live (boots w b board has_display) f = power_up w b board has_display f.store
live (hears w mesh_handled src bytes) f =
    let (n, effects) = on_data_recv w mesh_handled src bytes f.tasks.node in
    apply_effects effects (with_node n f)
live (serves w accepts grants ps) f =
    let (h, taken, effects) = midi_process w accepts grants ps (host_of f) in
    record (with_node h.node f) {
      reader = h.reader;
      last_host_rx_time = h.last_host_rx_time;
      out = h.out;
      log = h.log;
      store = store_all effects f.store;
    }
live (turns w hs) f =
    let (t, effects) = interrupted_turn w hs f.tasks in
    apply_effects effects (record f { tasks = t })
live (ticks now sync readings button) f =
    let (u, screen, effects) =
      ui_tick now f.last_host_rx_time sync readings f.tasks.node button f.ui in
    apply_effects effects (record f { ui = u })

-- Events one after the other.
unfoldable pub live_all : List Event → Firmware → Firmware
live_all [] f = f
live_all (e ∷ es) f = live_all es (live e f)
