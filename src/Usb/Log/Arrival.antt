-- ===== src/Usb/Log/Arrival.antt =====
-- The LOG frames on the wire.
use mathlib.Core.List.{append_assoc}
use nowde.Prelude.{
  ℕ, Option, none, some, ◌+◌, ◌≤◌, ◌≡◌, refl, ap, ◌∙◌, sym, List, [], ◌∷◌, ◌++◌, length,
  length-append, append-nil, map, All, arith, lt→ltb,
}
use nowde.Codec.{low7}
use nowde.Codec.RoundTrip.{IsData}
use nowde.Usb.{Packet, Reader, fresh_reader, read_packet, read_packets, sysex_packets, add_frame}
use nowde.Usb.Reassembly.{frame, read_packets-sysex_packets}
use nowde.Usb.Queue.{UsbOut, usb_out_midi, midi_queue_packets}
use nowde.Usb.Log.{log_frame, enqueue, enqueue_log_frame, enqueue_lines}
use nowde.Usb.Log.Text.{IsPrintable, IsLine}

-- The packets of some lines, in order.
abbrev pub line_packets : List (List ℕ) → List Packet
line_packets [] = []
line_packets (text ∷ texts) = sysex_packets (log_frame text) ++ line_packets texts

-- The frame of a line, its text as it stands in the line.
abbrev pub text_frame : List ℕ → List ℕ
text_frame text = frame (0x7D ∷ 0x31 ∷ text)

map-low7 : (text : List ℕ) → All IsPrintable text → map low7 text ≡ text
map-low7 [] h = refl
map-low7 (c ∷ text) h = λ i. low c h.0 i ∷ map-low7 text h.1 i
  where
    low : (c : ℕ) → IsPrintable c → low7 c ≡ c
    low c p = omega (arith, p)

IsPrintable-IsData : (text : List ℕ) → All IsPrintable text → All IsData text
IsPrintable-IsData [] h = tt
IsPrintable-IsData (c ∷ text) h = (h.0.1, IsPrintable-IsData text h.1)

log_frame-text : (text : List ℕ) → All IsPrintable text → log_frame text ≡ text_frame text
log_frame-text text h = ap (λ t. text_frame t) (map-low7 text h)

add_frame-append :
    (f : Option (List ℕ)) (xs ys : List (List ℕ)) → add_frame f (xs ++ ys) ≡ add_frame f xs ++ ys
add_frame-append none xs ys = refl
add_frame-append (some f) xs ys = refl

pub read_packets-append :
    (r : Reader) (ps qs : List Packet)
    → read_packets r (ps ++ qs)
      ≡ (let (r1, f1) = read_packets r ps in let (r2, f2) = read_packets r1 qs in (r2, f1 ++ f2))
unfolding read_packets
read_packets-append r [] qs = refl
read_packets-append r (p ∷ ps) qs =
    let (r1, f) = read_packet r p in
    let k = read_packets-append (read_packet r p).0 ps qs in
    let later = read_packets r1 ps in
    let last = read_packets later.0 qs in
    ap (λ q. (q.0, add_frame f q.1)) k ∙ ap (λ t. (last.0, t)) (add_frame-append f later.1 last.1)

enqueue-room :
    (ps : List Packet) (u : UsbOut)
    → length u.queue + length ps ≤ midi_queue_packets
    → enqueue ps u ≡ record u { queue = u.queue ++ ps }
unfolding enqueue usb_out_midi
enqueue-room [] u h = λ i. record u { queue = sym (append-nil u.queue) i }
enqueue-room (p ∷ ps) u h = rw (lt→ltb (length u.queue) midi_queue_packets (omega (arith, h))) (
    enqueue-room ps (record u { queue = u.queue ++ p ∷ [] })
      (omega (arith, h, length-append u.queue (p ∷ [])))
    ∙ ap (λ q. record u { queue = q }) (append_assoc u.queue (p ∷ []) ps))

enqueue_lines-room :
    (lines : List (List ℕ)) (u : UsbOut)
    → length u.queue + length (line_packets lines) ≤ midi_queue_packets
    → enqueue_lines lines u ≡ record u { queue = u.queue ++ line_packets lines }
unfolding enqueue_lines enqueue_log_frame
enqueue_lines-room [] u h = λ i. record u { queue = sym (append-nil u.queue) i }
enqueue_lines-room (text ∷ texts) u h =
    let ps = sysex_packets (log_frame text) in
    let k = length-append ps (line_packets texts) in
    ap (enqueue_lines texts) (enqueue-room ps u (omega (arith, h, k)))
    ∙ enqueue_lines-room texts (record u { queue = u.queue ++ ps })
        (omega (arith, h, k, length-append u.queue ps))
    ∙ ap (λ q. record u { queue = q }) (append_assoc u.queue ps (line_packets texts))

line_packets-read :
    (lines : List (List ℕ))
    → All IsLine lines
    → read_packets fresh_reader (line_packets lines) ≡ (fresh_reader, map text_frame lines)
unfolding read_packets
line_packets-read [] h = refl
line_packets-read (text ∷ texts) h =
    let (some_text, short, clean) = h.0 in
    let one : read_packets fresh_reader (sysex_packets (log_frame text))
        ≡ (fresh_reader, text_frame text ∷ []) =
      ap (λ f. read_packets fresh_reader (sysex_packets f)) (log_frame-text text clean)
      ∙ read_packets-sysex_packets fresh_reader (0x7D ∷ 0x31 ∷ text) refl
          (omega arith, (omega arith, IsPrintable-IsData text clean)) (omega (arith, short)) in
    read_packets-append fresh_reader (sysex_packets (log_frame text)) (line_packets texts)
    ∙ ap
        (λ q. (
          (read_packets q.0 (line_packets texts)).0,
          q.1 ++ (read_packets q.0 (line_packets texts)).1,
        ))
        one
    ∙ ap (λ q. (q.0, text_frame text ∷ q.1)) (line_packets-read texts h.1)

-- Lines that the queue has room for are all queued, behind what is there and in order; a reader of
-- USB-MIDI that does what `midiProcess` does gets one LOG frame from the packets of each line, with
-- the line's text as it was.
pub enqueue_lines_arrive :
    (lines : List (List ℕ)) (u : UsbOut)
    → All IsLine lines
    → length u.queue + length (line_packets lines) ≤ midi_queue_packets
    → (enqueue_lines lines u ≡ record u { queue = u.queue ++ line_packets lines })
      × (read_packets fresh_reader (line_packets lines) ≡ (fresh_reader, map text_frame lines))
enqueue_lines_arrive lines u h r = (enqueue_lines-room lines u r, line_packets-read lines h)
