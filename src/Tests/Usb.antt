-- ===== src/Tests/Usb.antt =====
-- The theorems on the MIDI task, the log and a whole update, at concrete inputs.
use nowde.Codec.RoundTrip.{IsData}
use nowde.Prelude.{
  ℕ, zero, suc, ◌≡◌, refl, ◌⊎◌, true, false, List, [], ◌∷◌, ◌++◌, length, replicate, All, arith, u8,
}
use nowde.Tests.{slave, world}
use nowde.Codec.{encode7bit, decode7bit}
use nowde.Usb.{Packet, packet, fresh_reader, read_packets, sysex_packets}
use nowde.Usb.Reassembly
use nowde.Usb.Queue.{UsbOut}
use nowde.Usb.Log.{Log, log_ring_bytes, boot_log, usb_out_log_enable, enqueue_lines}
use nowde.Usb.Log.Drain.{LogEvent, wrote, pumped, log_run}
use nowde.Usb.Log.Arrival.{line_packets, text_frame, enqueue_lines_arrive}
use nowde.Config.{role_slave}
use nowde.Effects.{update_begin}
use nowde.Node.{Node}
use nowde.Replies.{frame}
use nowde.Commands.{query_config}
use nowde.Sysex.{handle_sysex_message}
use nowde.Host.{Host, note_host, midi_receive_all}
use nowde.Host.Frames.{handle_frames, handed_over, midi_receive_all-read_packets}
use nowde.Host.Query.{Answered, query_config_replies}
use nowde.Host.LongFrames.{long_frame_ignored}
use nowde.Host.Update.{
  Piece, sized, missized, PieceIsValid, image, piece_frames, piece_effects, begin_frame, end_frame,
  aborted, verdict, update_lem,
}

abbrev empty_queue : UsbOut
empty_queue = record { queue = []; stalled_since = 0 }

-- "hi" and the start of a second line.
abbrev text : List ℕ
text = b'h' ∷ b'i' ∷ b'\r' ∷ b'\n' ∷ b'y' ∷ []

abbrev live_log : Log
live_log = record { ring = text; enabled = true; history = false; line = [] }

-- One byte at a time.
abbrev one_byte : ℕ → ℕ
one_byte k = 1

-- A task logs, nobody listens yet, and another task logs.
abbrev boot_events : List LogEvent
boot_events = wrote text ∷ pumped one_byte ∷ wrote text ∷ []

-- Pumps that get one byte at each receive, as many as the ring has bytes.
abbrev pumps : List (ℕ → ℕ)
pumps = replicate log_ring_bytes one_byte

abbrev enabled_log : Log
enabled_log = usb_out_log_enable true (log_run boot_events (boot_log, empty_queue)).0

abbrev hi : List ℕ
hi = b'h' ∷ b'i' ∷ []

arrival_example :
    (enqueue_lines (hi ∷ []) empty_queue ≡ record empty_queue { queue = line_packets (hi ∷ []) })
    × (read_packets fresh_reader (line_packets (hi ∷ [])) ≡ (fresh_reader, text_frame hi ∷ []))
unfolding sysex_packets
arrival_example = enqueue_lines_arrive (hi ∷ []) empty_queue (ground arith) (omega arith)

-- The host has been silent for 6 s.
abbrev silent : Host
silent = record {
  node = slave;
  reader = fresh_reader;
  last_host_rx_time = 0;
  out = empty_queue;
  log = boot_log;
}

abbrev query : List Packet
query = packet 0x04 0xF0 0x7D 0x01 ∷ packet 0x05 0xF7 0 0 ∷ []

handed_over_example :
    midi_receive_all world query silent
    ≡ handed_over world
        (read_packets fresh_reader query).1
        (read_packets fresh_reader query).0
        (note_host world 0 slave)
        silent
handed_over_example =
    midi_receive_all-read_packets world (packet 0x04 0xF0 0x7D 0x01) (packet 0x05 0xF7 0 0 ∷ [])
      silent (λ e. omega (arith, e))

abbrev told : Node
told = (query_config world (note_host world 0 slave)).0

query_example :
    Answered world told silent (midi_receive_all world (sysex_packets (frame 0x01 [])) silent).0
    × (told.host_resumed ≡ false)
    × ((told.role ≡ role_slave) ⊎ (told.sender_mode ≡ true))
query_example = query_config_replies world silent (λ e. omega (arith, e)) refl (omega arith)

-- 260 bytes with their F0 and F7.
abbrev long_body : List ℕ
long_body = replicate 258 1

replicate-IsData : (n : ℕ) → All IsData (replicate n 1)
replicate-IsData zero = tt
replicate-IsData (suc n) = (omega arith, replicate-IsData n)

long_example :
    handle_sysex_message world
      (u8 (length (Reassembly.frame long_body)))
      (Reassembly.frame long_body)
      slave
    ≡ (slave, [])
long_example =
    long_frame_ignored world long_body slave (replicate-IsData 258) (omega arith) (omega arith)

-- An image of three bytes, whose second chunk is cut short and sent again.
abbrev pieces : List Piece
pieces = sized 0 (200 ∷ 201 ∷ []) ∷ missized 1 1 [] ∷ sized 1 (202 ∷ []) ∷ []

pieces-IsValid : All (PieceIsValid world) pieces
unfolding encode7bit decode7bit
pieces-IsValid = (
  ((omega arith, (omega arith, tt)), omega arith, refl, omega arith),
  (
    ((λ e. omega (arith, e)), omega arith),
    (((omega arith, tt), omega arith, refl, omega arith), tt),
  ),
)

update_example :
    ((handle_frames world (begin_frame 3 ∷ piece_frames pieces ++ end_frame ∷ []) slave).1
      ≡ aborted world
        ++ (update_begin 3 ∷ (piece_effects pieces ++ verdict world (length (image pieces)) 3)))
    × ((handle_frames world
          (begin_frame 3 ∷ piece_frames pieces ++ end_frame ∷ [])
          slave).0.ota.in_progress
        ≡ false)
update_example = update_lem world 3 pieces slave refl (omega arith) (omega arith) pieces-IsValid
