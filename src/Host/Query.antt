-- ===== src/Host/Query.antt =====
-- A query of the host and its answer, through both queues.
use mathlib.Core.List.{append_assoc}
use nowde.Prelude.{
  ℕ, ◌+◌, ◌≤◌, ◌≡◌, refl, ◌⊎◌, ap, ◌∙◌, sym, ◌≢◌, true, false, List, [], ◌∷◌, ◌++◌, length,
  length-append, append-nil, arith, lt→ltb,
}
use nowde.Usb.{Packet, fresh_reader, read_packets, sysex_packets, scanned_packets}
use nowde.Usb.Reassembly.{read_packets-sysex_packets}
use nowde.Usb.Log.Arrival.{read_packets-append}
use nowde.Usb.Queue.{UsbOut, usb_out_midi, midi_queue_packets}
use nowde.Config.{role_slave}
use nowde.Codec.{encode7bit}
use nowde.Replies.{frame, hello_body, config_state_body, send_hello, send_config_state}
use nowde.Replies.Delivery.{hello_arrives, config_state_arrives, config_state_body-length}
use nowde.Node.{Node, World}
use nowde.Commands.{query_config}
use nowde.Sysex.{handle_sysex_message, command}
use nowde.Host.{Host, midi_write_packets, post_out, post_outs, note_host, midi_receive_all}
use nowde.Host.Frames.{handle_frames, handed_over, midi_receive_all-read_packets}

midi_write_packets-room :
    (ps : List Packet) (u : UsbOut)
    → length u.queue + length ps ≤ midi_queue_packets
    → midi_write_packets ps u ≡ record u { queue = u.queue ++ ps }
unfolding midi_write_packets usb_out_midi
midi_write_packets-room [] u h = λ i. record u { queue = sym (append-nil u.queue) i }
midi_write_packets-room (p ∷ ps) u h =
    rw (lt→ltb (length u.queue) midi_queue_packets (omega (arith, h))) (
      midi_write_packets-room ps (record u { queue = u.queue ++ p ∷ [] })
        (omega (arith, h, length-append u.queue (p ∷ [])))
      ∙ ap (λ q. record u { queue = q }) (append_assoc u.queue (p ∷ []) ps))

-- Never more packets than bytes.
pub length-sysex_packets : (bytes : List ℕ) → length (sysex_packets bytes) ≤ length bytes
unfolding sysex_packets
length-sysex_packets [] = omega arith
length-sysex_packets (a ∷ []) = omega arith
length-sysex_packets (a ∷ b ∷ []) = omega arith
length-sysex_packets (a ∷ b ∷ c ∷ []) = omega arith
length-sysex_packets (a ∷ b ∷ c ∷ d ∷ rest) = omega (arith, length-sysex_packets (d ∷ rest))

pub length-scanned_packets : (bytes : List ℕ) → length (scanned_packets bytes) ≤ length bytes
unfolding scanned_packets
length-scanned_packets [] = omega arith
length-scanned_packets (a ∷ []) = ground arith
length-scanned_packets (a ∷ b ∷ []) = ground (arith, length-scanned_packets (b ∷ []))
length-scanned_packets (a ∷ b ∷ c ∷ rest) = ground (
  arith,
  length-scanned_packets (b ∷ c ∷ rest),
  length-scanned_packets (c ∷ rest),
  length-scanned_packets rest,
)

-- The answer to QUERY_CONFIG, as packets.
abbrev pub answer_packets : World → Node → List Packet
answer_packets w m =
    scanned_packets (frame 0x20 (hello_body w m))
    ++ sysex_packets (frame 0x21 (config_state_body m))

length-hello : (w : World) (m : Node) → length (scanned_packets (frame 0x20 (hello_body w m))) ≤ 31
unfolding hello_body encode7bit
length-hello w m = omega (arith, length-scanned_packets (frame 0x20 (hello_body w m)))

length-answer_packets : (w : World) (m : Node) → length (answer_packets w m) ≤ 70
length-answer_packets w m = omega (
  arith,
  length-hello w m,
  length-append (scanned_packets (frame 0x20 (hello_body w m)))
      (sysex_packets (frame 0x21 (config_state_body m))),
  length-sysex_packets (frame 0x21 (config_state_body m)),
  length-append (config_state_body m) (0xF7 ∷ []),
  config_state_body-length m,
)

answer_packets-read :
    (w : World) (m : Node)
    → read_packets fresh_reader (answer_packets w m)
      ≡ (fresh_reader, frame 0x20 (hello_body w m) ∷ frame 0x21 (config_state_body m) ∷ [])
answer_packets-read w m =
    let config = sysex_packets (frame 0x21 (config_state_body m)) in
    read_packets-append fresh_reader (scanned_packets (frame 0x20 (hello_body w m))) config
    ∙ ap (λ q. ((read_packets q.0 config).0, q.1 ++ (read_packets q.0 config).1))
        (hello_arrives w m)
    ∙ ap (λ q. (q.0, frame 0x20 (hello_body w m) ∷ q.1)) (config_state_arrives m)

-- The frame of QUERY_CONFIG, on any node.
handle_frames-query :
    (w : World) (n : Node)
    → handle_frames w (frame 0x01 [] ∷ []) n
      ≡ (let m = (query_config w n).0 in (m, send_hello w m ∷ send_config_state m ∷ []))
unfolding handle_frames handle_sysex_message command query_config
handle_frames-query w n = refl

post_outs-answer :
    (w : World) (m : Node) (u : UsbOut)
    → length u.queue + 70 ≤ midi_queue_packets
    → post_outs (send_hello w m ∷ send_config_state m ∷ []) u
      ≡ record u { queue = u.queue ++ answer_packets w m }
unfolding post_outs post_out send_hello send_config_state
post_outs-answer w m u h =
    let hello = scanned_packets (frame 0x20 (hello_body w m)) in
    let config = sysex_packets (frame 0x21 (config_state_body m)) in
    let few = length-answer_packets w m in
    let split = length-append hello config in
    ap (midi_write_packets config) (midi_write_packets-room hello u (omega (arith, h, few, split)))
    ∙ midi_write_packets-room config (record u { queue = u.queue ++ hello })
        (omega (arith, h, few, split, length-append u.queue hello))
    ∙ ap (λ q. record u { queue = q }) (append_assoc u.queue hello config)

-- What a host sees of the node `m` after its QUERY_CONFIG.
abbrev pub Answered : World → Node → Host → Host → Type 0
Answered w m h after =
    (after.node ≡ m)
    × (after.last_host_rx_time ≡ w.now)
    × (after.out.queue ≡ h.out.queue ++ answer_packets w m)
    × (read_packets fresh_reader (answer_packets w m)
        ≡ (fresh_reader, frame 0x20 (hello_body w m) ∷ frame 0x21 (config_state_body m) ∷ []))

-- A QUERY_CONFIG that arrives over USB between frames, at a time other than 0, in whatever state the
-- node is, is answered: if the queue has room for 70 packets, behind what it holds stand the
-- packets of one HELLO and one CONFIG_STATE, which a reader gets back whole, in that order; they
-- tell the state of the node after the query, which is a sender unless it is a slave, and which
-- does not count as resumed any more.
pub query_config_replies :
    (w : World) (h : Host)
    → w.now ≢ 0
    → h.reader ≡ fresh_reader
    → length h.out.queue + 70 ≤ midi_queue_packets
    → let m = (query_config w (note_host w h.last_host_rx_time h.node)).0 in
      let after = (midi_receive_all w (sysex_packets (frame 0x01 [])) h).0 in
      Answered w m h after
      × (m.host_resumed ≡ false)
      × ((m.role ≡ role_slave) ⊎ (m.sender_mode ≡ true))
unfolding sysex_packets query_config
query_config_replies w h z f room =
    let n = note_host w h.last_host_rx_time h.node in
    let m = (query_config w n).0 in
    let read : read_packets h.reader (sysex_packets (frame 0x01 []))
        ≡ (fresh_reader, frame 0x01 [] ∷ []) =
      ap (λ r. read_packets r (sysex_packets (frame 0x01 []))) f
      ∙ read_packets-sysex_packets fresh_reader (0x7D ∷ 0x01 ∷ []) refl
          (omega arith, (omega arith, tt)) (omega arith) in
    let run = midi_receive_all-read_packets w _ _ h z ∙ ap (λ q. handed_over w q.1 q.0 n h) read in
    let handled = handle_frames-query w n in
    (
      (
        ap (λ r. r.0.node) run ∙ ap (λ r. r.0) handled,
        ap (λ r. r.0.last_host_rx_time) run,
        ap (λ r. r.0.out.queue) run
            ∙ ap (λ r. (post_outs r.1 h.out).queue) handled
            ∙ ap (λ u. u.queue) (post_outs-answer w m h.out room),
        answer_packets-read w m,
      ),
      refl,
      ground arith,
    )
