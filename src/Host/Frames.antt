-- ===== src/Host/Frames.antt =====
-- The loop of `midiProcess` hands over exactly the frames that it puts together, one call for each.
use nowde.Prelude.{
  ℕ, ◌≡◌, refl, ap, ◌∙◌, sym, ◌≢◌, true, Option, none, some, List, [], ◌∷◌, ◌++◌, length, arith, u8,
}
use nowde.Usb.{Packet, Reader, read_packet, read_packets, add_frame}
use nowde.Usb.Queue.{UsbOut}
use nowde.Usb.Log.{Log}
use nowde.Effects.{Effect}
use nowde.Sync.{host_linked}
use nowde.Node.{Node, World}
use nowde.Sysex.{handle_sysex_message}
use nowde.Host.{Host, post_outs, post_logs, hand_over, note_host, midi_receive, midi_receive_all}

-- `handleSysExMessage` for each of some frames.
unfoldable pub handle_frames : World → List (List ℕ) → Node → Node × List Effect
handle_frames w [] n = (n, [])
handle_frames w (f ∷ fs) n =
    let (n', effects) = handle_sysex_message w (u8 (length f)) f n in
    let (last, more) = handle_frames w fs n' in (last, effects ++ more)

linked_now : (now : ℕ) → now ≢ 0 → host_linked now now ≡ true
unfolding host_linked
linked_now now h = ground arith

-- What the loop leaves of `h`, once it handed over `frames` on the node `n`.
abbrev pub handed_over : World → List (List ℕ) → Reader → Node → Host → Host × List Effect
handed_over w frames reader n h =
    let (n', effects) = handle_frames w frames n in
    (
      record {
        node = n';
        reader = reader;
        last_host_rx_time = w.now;
        out = post_outs effects h.out;
        log = post_logs effects h.log;
      },
      effects,
    )

post_outs-append :
    (xs ys : List Effect) (u : UsbOut) → post_outs (xs ++ ys) u ≡ post_outs ys (post_outs xs u)
unfolding post_outs
post_outs-append [] ys u = refl
post_outs-append (x ∷ xs) ys u = post_outs-append xs ys _

post_logs-append :
    (xs ys : List Effect) (l : Log) → post_logs (xs ++ ys) l ≡ post_logs ys (post_logs xs l)
unfolding post_logs
post_logs-append [] ys l = refl
post_logs-append (x ∷ xs) ys l = post_logs-append xs ys _

-- A frame that is handed over comes first.
handle_frames-add_frame :
    (w : World) (f : Option (List ℕ)) (fs : List (List ℕ)) (n : Node)
    → handle_frames w (add_frame f fs) n ≡ (
        let (n', effects) = hand_over w f n in
        let (last, more) = handle_frames w fs n' in (last, effects ++ more))
unfolding handle_frames hand_over
handle_frames-add_frame w none fs n = refl
handle_frames-add_frame w (some f) fs n = refl

module _ (w : World) where
  -- The first packet, when the rest is known.
  first_packet :
      (p : Packet) (ps : List Packet) (h : Host)
      → (let h' = (midi_receive w p h).0 in
          midi_receive_all w ps h'
          ≡ handed_over w (read_packets h'.reader ps).1 (read_packets h'.reader ps).0 h'.node h')
      → midi_receive_all w (p ∷ ps) h
        ≡ handed_over w
            (read_packets h.reader (p ∷ ps)).1
            (read_packets h.reader (p ∷ ps)).0
            (note_host w h.last_host_rx_time h.node)
            h
  unfolding midi_receive_all midi_receive read_packets
  first_packet p ps h k =
      let (reader, f) = read_packet h.reader p in
      let n = note_host w h.last_host_rx_time h.node in
      let (n', es) = hand_over w f n in
      let (left, fs) = read_packets reader ps in
      let (last, more) = handle_frames w fs n' in
      let whole : Node × List Effect → Host × List Effect = λ r. (
        record {
          node = r.0;
          reader = left;
          last_host_rx_time = w.now;
          out = post_outs r.1 h.out;
          log = post_logs r.1 h.log;
        },
        r.1,
      ) in
      ap (λ r. (r.0, es ++ r.1)) k
      ∙ ap
          (λ u. (
            record {
              node = last;
              reader = left;
              last_host_rx_time = w.now;
              out = u;
              log = post_logs more (post_logs es h.log);
            },
            es ++ more,
          ))
          (sym (post_outs-append es more h.out))
      ∙ ap
          (λ l. (
            record {
              node = last;
              reader = left;
              last_host_rx_time = w.now;
              out = post_outs (es ++ more) h.out;
              log = l;
            },
            es ++ more,
          ))
          (sym (post_logs-append es more h.log))
      ∙ ap whole (sym (handle_frames-add_frame w f fs n))

  linked_packets :
      (ps : List Packet) (h : Host)
      → host_linked w.now w.now ≡ true
      → h.last_host_rx_time ≡ w.now
      → midi_receive_all w ps h
        ≡ handed_over w (read_packets h.reader ps).1 (read_packets h.reader ps).0 h.node h
  unfolding midi_receive_all midi_receive read_packets handle_frames post_outs post_logs
  linked_packets [] h z e = ap (λ t. (record h { last_host_rx_time = t }, [])) e
  linked_packets (p ∷ ps) h z e =
      first_packet p ps h (linked_packets ps _ z refl)
      ∙ ap
          (λ n.
            handed_over w (read_packets h.reader (p ∷ ps)).1 (read_packets h.reader (p ∷ ps)).0 n h)
          (rw (e, z) refl)

  -- The packets that are there in one turn of the MIDI task, at a time other than 0, make it call
  -- `handleSysExMessage` once for each frame that they complete, in order, with the frame and its
  -- length as a byte, and for nothing else; what the handlers answer goes into the queue in that
  -- order; the host counts as heard now, and as resumed before the first frame if it was silent.
  pub midi_receive_all-read_packets :
      (p : Packet) (ps : List Packet) (h : Host)
      → w.now ≢ 0
      → midi_receive_all w (p ∷ ps) h
        ≡ handed_over w
            (read_packets h.reader (p ∷ ps)).1
            (read_packets h.reader (p ∷ ps)).0
            (note_host w h.last_host_rx_time h.node)
            h
  unfolding midi_receive
  midi_receive_all-read_packets p ps h z =
      first_packet p ps h (linked_packets ps _ (linked_now w.now z) refl)
