-- ===== src/Replies/Chunks.antt =====
-- The chunks of RUNNING_STATE on the wire.
use nowde.Prelude.{
  ℕ, suc, ◌+◌, ◌<◌, ◌≤◌, ◌≡◌, refl, ap, ◌∙◌, List, [], ◌∷◌, ◌++◌, map, length, length-append, All,
  All-append, arith, ◌/◌, ◌%◌, sub32, u8,
}
use nowde.Codec.{encode7bit}
use nowde.Codec.RoundTrip.{IsData, encode7bit-IsData, length-encode7bit}
use nowde.Usb.{Packet, fresh_reader, read_packets, sysex_packets}
use nowde.Usb.Scan.{running_packets-scanned_packets}
use nowde.Usb.Log.Arrival.{read_packets-append}
use nowde.Tables.{ReceiverEntry}
use nowde.Node.{World}
use nowde.Replies.{
  frame, be32, flag, chunk_packets, receiver_data, chunk_body, chunks_from, chunks_of,
  running_state_bodies, snapshot,
}
use nowde.Replies.Delivery.{frame_arrives, scanned_packets-frame, flag-IsData}
use nowde.Replies.Slaves.{HoldsBytes, slave_of, told, running_state_slaves}

-- The packets of some chunks, in order.
abbrev pub state_packets : List (List ℕ) → List Packet
state_packets [] = []
state_packets (body ∷ bodies) = chunk_packets body ++ state_packets bodies

abbrev pub IsSent : List ℕ → Type 0
IsSent body = All IsData body × (length body ≤ 508)

pub chunk_packets-sysex_packets :
    (body : List ℕ) → IsSent body → chunk_packets body ≡ sysex_packets (frame 0x22 body)
chunk_packets-sysex_packets body (d, l) =
    let m = frame 0x22 body in
    running_packets-scanned_packets (length m) 0 m m refl (omega arith)
    ∙ scanned_packets-frame 0x22 body (omega arith) d

chunk_arrives :
    (body : List ℕ)
    → IsSent body
    → read_packets fresh_reader (chunk_packets body) ≡ (fresh_reader, frame 0x22 body ∷ [])
chunk_arrives body (d, l) =
    let m = frame 0x22 body in
    ap (read_packets fresh_reader)
      (running_packets-scanned_packets (length m) 0 m m refl (omega arith))
    ∙ (frame_arrives 0x22 body (omega arith) d l).1

chunks_arrive :
    (bodies : List (List ℕ))
    → All IsSent bodies
    → read_packets fresh_reader (state_packets bodies) ≡ (fresh_reader, map (frame 0x22) bodies)
unfolding read_packets
chunks_arrive [] h = refl
chunks_arrive (body ∷ bodies) h =
    read_packets-append fresh_reader (chunk_packets body) (state_packets bodies)
    ∙ rw (chunk_arrives body h.0) (rw (chunks_arrive bodies h.1) refl)

-- The buffers of an entry have their sizes.
abbrev pub IsSized : ReceiverEntry → Type 0
IsSized e = (length e.layer ≡ 16) × (length e.version ≡ 8)

length-receiver_data : (now : ℕ) (e : ReceiverEntry) → IsSized e → length (receiver_data now e) ≡ 39
unfolding receiver_data
length-receiver_data now e (l, v) =
    let tail =
      be32 (sub32 now e.last_seen)
      ++ (1 ∷ e.media_index ∷ e.sync_quality ∷ e.sync_gaps / 256 % 256 ∷ e.sync_gaps % 256 ∷ []) in
    omega (arith, length-append e.layer (e.version ++ tail), length-append e.version tail, l, v)

header-IsSent :
    (w : World) (total i count inside : ℕ) (slave : List ℕ)
    → total < 128
    → i < 128
    → count < 128
    → inside < 128
    → length slave ≤ 39
    → IsSent (
        encode7bit (be32 w.now)
        ++ (flag w.synced ∷ u8 total ∷ i ∷ count ∷ inside ∷ encode7bit slave))
header-IsSent w total i count inside slave a b c d l =
    let uptime = encode7bit (be32 w.now) in
    let rest = flag w.synced ∷ u8 total ∷ i ∷ count ∷ inside ∷ encode7bit slave in
    (
      All-append IsData uptime rest (encode7bit-IsData (be32 w.now))
          (flag-IsData w.synced, (omega (arith, a), (b, (c, (d, encode7bit-IsData slave))))),
      omega (
        arith,
        length-append uptime rest,
        length-encode7bit (be32 w.now),
        length-encode7bit slave,
        l,
      ),
    )

chunk_body-IsSent :
    (w : World) (total i count : ℕ) (inside : List ReceiverEntry)
    → total < 128
    → i < 128
    → count < 128
    → length inside ≤ 1
    → All IsSized inside
    → IsSent (chunk_body w total i count inside)
unfolding chunk_body
chunk_body-IsSent w total i count [] a b c l h =
    header-IsSent w total i count 0 [] a b c (omega arith) (omega arith)
chunk_body-IsSent w total i count (e ∷ t) a b c l h =
    header-IsSent w total i count (length (e ∷ t)) (receiver_data w.now e) a b c (omega (arith, l))
      (omega (arith, length-receiver_data w.now e h.0))

chunks_from-IsSent :
    (w : World) (total count i : ℕ) (t : List ReceiverEntry)
    → total < 128
    → count < 128
    → i + length t ≤ 128
    → All IsSized t
    → All IsSent (chunks_from w total count i t)
unfolding chunks_from
chunks_from-IsSent w total count i [] a c l h = tt
chunks_from-IsSent w total count i (e ∷ t) a c l h = (
  chunk_body-IsSent w total i count (e ∷ []) a (omega (arith, l)) c (omega arith) (h.0, tt),
  chunks_from-IsSent w total count (suc i) t a c (omega (arith, l)) h.1,
)

chunks_of-IsSent :
    (w : World) (t : List ReceiverEntry)
    → length t < 128
    → All IsSized t
    → All IsSent (chunks_of w t)
unfolding chunks_of
chunks_of-IsSent w [] l h =
    (chunk_body-IsSent w 0 0 1 [] (omega arith) (omega arith) (omega arith) (omega arith) tt, tt)
chunks_of-IsSent w (e ∷ t) l h =
    chunks_from-IsSent w (length (e ∷ t)) (length (e ∷ t)) 0 (e ∷ t) l l (omega (arith, l)) h

-- If fewer than 128 slaves are connected, their buffers have their sizes and all that they hold fits
-- in bytes, the packets of RUNNING_STATE, read as `midiProcess` reads, give one frame for each
-- chunk, whole and in order, and nothing else; from the chunks a host reads every connected slave
-- once, in the order of the table; with none connected, there is one chunk, which lists no slave.
pub running_state_arrives :
    (w : World) (table : List ReceiverEntry)
    → length (snapshot table) < 128
    → All IsSized (snapshot table)
    → All (HoldsBytes w.now) (snapshot table)
    → let bodies = running_state_bodies w table in
      (read_packets fresh_reader (state_packets bodies) ≡ (fresh_reader, map (frame 0x22) bodies))
      × (map slave_of bodies ≡ told w.now (snapshot table))
unfolding running_state_bodies
running_state_arrives w table l s h = (
  chunks_arrive (chunks_of w (snapshot table)) (chunks_of-IsSent w (snapshot table) l s),
  running_state_slaves w table h,
)
