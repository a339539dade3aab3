-- ===== src/Replies/Delivery.antt =====
-- The frames for the host are clean MIDI: a reader that does what `midiProcess` does gets them back.
use nowde.Prelude.{
  ℕ, zero, suc, ◌≤◌, ◌<◌, ◌≡◌, refl, ap, ◌∙◌, Bool, List, [], ◌∷◌, map, length, length-append, take,
  All, All-append, arith, strnlen, strnlen-le,
}
use nowde.Codec.{low7, encode7bit}
use nowde.Codec.RoundTrip.{IsData, encode7bit-IsData}
use nowde.Config.{version}
use nowde.Usb.{fresh_reader, read_packets, sysex_packets, scanned_packets}
use nowde.Usb.Frames.{IsInner, scanned_packets-sysex_packets}
use nowde.Usb.Reassembly.{read_packets-sysex_packets}
use nowde.Wire.{mac_bytes}
use nowde.Node.{Node, World}
use nowde.Replies.{frame, be32, hello_body, config_state_body, flag, lock_state}

pub flag-IsData : (b : Bool) → IsData (flag b)
flag-IsData b = ground arith

lock_state-IsData : (n : Node) → IsData (lock_state n.follower.lock)
lock_state-IsData n = ground arith

map-low7-IsData : (xs : List ℕ) → All IsData (map low7 xs)
map-low7-IsData [] = tt
map-low7-IsData (x ∷ xs) = (omega arith, map-low7-IsData xs)

IsData-IsInner : (xs : List ℕ) → All IsData xs → All IsInner xs
IsData-IsInner [] h = tt
IsData-IsInner (x ∷ xs) h = ((λ e. omega (arith, h.0, e)), IsData-IsInner xs h.1)

length-map-low7 : (xs : List ℕ) → length (map low7 xs) ≡ length xs
length-map-low7 [] = refl
length-map-low7 (x ∷ xs) = ap suc (length-map-low7 xs)

length-take-le : (n : ℕ) (xs : List ℕ) → length (take n xs) ≤ n
length-take-le zero xs = omega arith
length-take-le (suc n) [] = omega arith
length-take-le (suc n) (x ∷ xs) = omega (arith, length-take-le n xs)

-- Both ways of cutting a frame of data bytes give the same packets.
pub scanned_packets-frame :
    (command : ℕ) (body : List ℕ)
    → command < 128
    → All IsData body
    → scanned_packets (frame command body) ≡ sysex_packets (frame command body)
scanned_packets-frame command body c d =
    scanned_packets-sysex_packets (0xF0 ∷ 0x7D ∷ command ∷ body) (
      (λ e. omega (arith, e)),
      ((λ e. omega (arith, e)), ((λ e. omega (arith, e, c)), IsData-IsInner body d)),
    )

-- A frame with a body of at most 508 data bytes arrives, sent either way.
pub frame_arrives :
    (command : ℕ) (body : List ℕ)
    → command < 128
    → All IsData body
    → length body ≤ 508
    → (read_packets fresh_reader (sysex_packets (frame command body))
        ≡ (fresh_reader, frame command body ∷ []))
      × (read_packets fresh_reader (scanned_packets (frame command body))
          ≡ (fresh_reader, frame command body ∷ []))
frame_arrives command body c d l =
    let sent =
      read_packets-sysex_packets fresh_reader (0x7D ∷ command ∷ body) refl (omega arith, (c, d))
        (omega (arith, l)) in
    (sent, ap (read_packets fresh_reader) (scanned_packets-frame command body c d) ∙ sent)

hello_body-IsData : (w : World) (n : Node) → All IsData (hello_body w n)
unfolding hello_body
hello_body-IsData w n = All-append IsData (encode7bit version) _ (encode7bit-IsData version) (
    All-append IsData (encode7bit (be32 w.now)) _ (encode7bit-IsData (be32 w.now)) (
      omega arith,
      (
        omega arith,
        (omega arith, (omega arith, (flag-IsData n.lr_enabled, (omega arith, (omega arith, tt))))),
      ),
    ))

-- HELLO, cut into packets as `sendHello` cuts it, is read back whole by a reader that does what
-- `midiProcess` does, whatever the state of the node is.
pub hello_arrives :
    (w : World) (n : Node)
    → read_packets fresh_reader (scanned_packets (frame 0x20 (hello_body w n)))
      ≡ (fresh_reader, frame 0x20 (hello_body w n) ∷ [])
unfolding hello_body encode7bit
hello_arrives w n =
    (frame_arrives 0x20 (hello_body w n) (omega arith) (hello_body-IsData w n) (omega arith)).1

config_state_body-IsData : (n : Node) → All IsData (config_state_body n)
unfolding config_state_body
config_state_body-IsData n = (
  flag-IsData n.rf_simulation,
  (
    omega arith,
    (
      omega arith,
      (
        omega arith,
        (
          omega arith,
          (
            omega (arith, strnlen-le n.subscribed_layer 15),
            All-append IsData (map low7 (take (strnlen n.subscribed_layer 15) n.subscribed_layer)) _
                (map-low7-IsData (take (strnlen n.subscribed_layer 15) n.subscribed_layer))
                (
                  flag-IsData n.follower.sync.stop_on_link_lost,
                  (lock_state-IsData n, encode7bit-IsData (mac_bytes n.follower.lock.mac)),
                ),
          ),
        ),
      ),
    ),
  ),
)

pub config_state_body-length : (n : Node) → length (config_state_body n) ≤ 30
unfolding config_state_body encode7bit
config_state_body-length n = omega (
  arith,
  length-append (map low7 (take (strnlen n.subscribed_layer 15) n.subscribed_layer)) (
      flag n.follower.sync.stop_on_link_lost
      ∷ lock_state n.follower.lock
      ∷ encode7bit (mac_bytes n.follower.lock.mac)),
  length-map-low7 (take (strnlen n.subscribed_layer 15) n.subscribed_layer),
  length-take-le (strnlen n.subscribed_layer 15) n.subscribed_layer,
  strnlen-le n.subscribed_layer 15,
)

-- CONFIG_STATE, cut into packets as `sendSysExBytes` cuts it, is read back whole by a reader that
-- does what `midiProcess` does, whatever the state of the node is.
pub config_state_arrives :
    (n : Node)
    → read_packets fresh_reader (sysex_packets (frame 0x21 (config_state_body n)))
      ≡ (fresh_reader, frame 0x21 (config_state_body n) ∷ [])
config_state_arrives n =
    (frame_arrives 0x21 (config_state_body n) (omega arith) (config_state_body-IsData n)
      (omega (arith, config_state_body-length n))).0
