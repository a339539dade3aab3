-- ===== src/Life/Runs.antt =====
-- What each handler keeps of the node holds in every life of it.
use nowde.Prelude.{ℕ, Bool, true, not, Option, none, some, List, [], ◌∷◌, All, length, u8, if_both}
use nowde.Wire.{Mac}
use nowde.Usb.{Packet, read_packet}
use nowde.Node.{Node, World}
use nowde.Sync.{Follower, host_linked}
use nowde.Sysex.{handle_sysex_message}
use nowde.Receive.{on_data_recv}
use nowde.Effects.{Effect}
use nowde.Relay.{Relay}
use nowde.Tables.{cleanup_sender_table}
use nowde.Task.{Tasks, sender_turn}
use nowde.Task.Interrupted.{Heard, hear_frames, interrupted_receiver_turn, interrupted_turn}
use nowde.Host.{Host, note_host, hand_over, midi_receive, midi_receive_all, midi_process}
use nowde.Boot.{Store, Build, setup}
use nowde.Life.{
  Firmware, Event, boots, hears, serves, turns, ticks, apply_effects, power_up, live, live_all,
}

-- A property of the node that every handler keeps, on the frames that `Allowed` allows.
pub record IsKept (Allowed : World → Mac → List ℕ → Type 0) (P : Node → Type 0) : Type 0 where
  pub boot_keeps : (w : World) (b : Build) (board : ℕ) (s : Store) → P ((setup w b board true s).0)
  pub hear_keeps :
      (w : World) (mesh_handled : Bool) (src : Mac) (bytes : List ℕ) (n : Node)
      → Allowed w src bytes
      → P n
      → P ((on_data_recv w mesh_handled src bytes n).0)
  pub sysex_keeps :
      (w : World) (len : ℕ) (bytes : List ℕ) (n : Node)
      → P n
      → P ((handle_sysex_message w len bytes n).0)
  pub note_keeps : (n : Node) → P n → P (record n { host_resumed = true })
  pub sender_keeps : (now : ℕ) (t : Tasks) → P t.node → P ((sender_turn now t).0.node)
  pub clean_keeps :
      (now : ℕ) (n : Node) → P n → P (record n { senders = (cleanup_sender_table now n.senders).0 })
  pub sync_keeps : (f : Follower) (n : Node) → P n → P (record n { follower = f })
  pub relay_keeps : (r : Relay) (n : Node) → P n → P (record n { relay = r })

-- The frames of a list of calls are allowed.
abbrev pub AllAllowed : (World → Mac → List ℕ → Type 0) → List Heard → Type 0
AllAllowed Allowed = All (λ h. Allowed h.world h.src h.bytes)

-- The frames that a life hears are allowed.
abbrev pub HearsOnly : (World → Mac → List ℕ → Type 0) → Event → Type 0
HearsOnly Allowed (hears w mesh_handled src bytes) = Allowed w src bytes
HearsOnly Allowed (turns w hs) = AllAllowed Allowed hs
HearsOnly Allowed _ = Unit {0}

module _ {Allowed : World → Mac → List ℕ → Type 0} {P : Node → Type 0} (k : IsKept Allowed P) where
  hand_over-keeps : (w : World) (f : Option (List ℕ)) (n : Node) → P n → P ((hand_over w f n).0)
  unfolding hand_over
  hand_over-keeps w none n p = p
  hand_over-keeps w (some f) n p = k.sysex_keeps w (u8 (length f)) f n p

  midi_receive_all-keeps :
      (w : World) (ps : List Packet) (h : Host) → P h.node → P ((midi_receive_all w ps h).0.node)
  unfolding midi_receive_all midi_receive
  midi_receive_all-keeps w [] h p = p
  midi_receive_all-keeps w (q ∷ ps) h p = midi_receive_all-keeps w ps _ (
      hand_over-keeps w (read_packet h.reader q).1 (note_host w h.last_host_rx_time h.node)
        (if_both P (not (host_linked w.now h.last_host_rx_time)) _ _ (k.note_keeps h.node p) p))

  hear_frames-keeps :
      (hs : List Heard) (n : Node) → AllAllowed Allowed hs → P n → P ((hear_frames hs n).0)
  unfolding hear_frames
  hear_frames-keeps [] n a p = p
  hear_frames-keeps (h ∷ hs) n a p =
      hear_frames-keeps hs _ a.1 (k.hear_keeps h.world h.mesh_handled h.src h.bytes n a.0 p)

  receiver_turn-keeps :
      (w : World) (hs : List Heard) (t : Tasks)
      → AllAllowed Allowed hs
      → P t.node
      → P ((interrupted_receiver_turn w hs t).0.node)
  unfolding interrupted_receiver_turn
  receiver_turn-keeps w hs t a p =
      if_both (λ (r : Tasks × List Effect). P (r.0.node)) t.node.receiver_mode _ (t, [])
        (k.sync_keeps _ _ (hear_frames-keeps hs _ a (k.clean_keeps w.now t.node p))) p

  interrupted_turn-keeps :
      (w : World) (hs : List Heard) (t : Tasks)
      → AllAllowed Allowed hs
      → P t.node
      → P ((interrupted_turn w hs t).0.node)
  unfolding interrupted_turn
  interrupted_turn-keeps w hs t a p =
      k.relay_keeps _ _ (receiver_turn-keeps w hs _ a (k.sender_keeps w.now t p))

  live-keeps :
      (e : Event) (f : Firmware) → HearsOnly Allowed e → P f.tasks.node → P ((live e f).tasks.node)
  unfolding live power_up apply_effects midi_process
  live-keeps (boots w b board has_display) f h p = k.boot_keeps w b board f.store
  live-keeps (hears w mesh_handled src bytes) f h p =
      k.hear_keeps w mesh_handled src bytes f.tasks.node h p
  live-keeps (serves w accepts grants ps) f h p = midi_receive_all-keeps w ps _ p
  live-keeps (turns w hs) f h p = interrupted_turn-keeps w hs f.tasks h p
  live-keeps (ticks now sync readings button) f h p = p

  pub live_all-keeps :
      (es : List Event) (f : Firmware)
      → All (HearsOnly Allowed) es
      → P f.tasks.node
      → P ((live_all es f).tasks.node)
  unfolding live_all
  live_all-keeps [] f h p = p
  live_all-keeps (e ∷ es) f h p = live_all-keeps es (live e f) h.1 (live-keeps e f h.0 p)

  -- From a boot on.
  pub life-keeps :
      (w : World) (b : Build) (board : ℕ) (has_display : Bool) (s : Store) (es : List Event)
      → All (HearsOnly Allowed) es
      → P ((live_all es (power_up w b board has_display s)).tasks.node)
  unfolding power_up apply_effects
  life-keeps w b board has_display s es h = live_all-keeps es _ h (k.boot_keeps w b board s)
