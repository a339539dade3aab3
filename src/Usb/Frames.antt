-- ===== src/Usb/Frames.antt =====
-- The two ways in which sysex.cpp cuts a frame agree on every frame that F7 ends.
use nowde.Prelude.{ℕ, ◌≡◌, refl, ◌≢◌, List, [], ◌∷◌, ◌++◌, All, arith}
use nowde.Usb.{packet, sysex_end, sysex_packets, scanned_packets}

-- A byte that does not end a frame.
abbrev pub IsInner : ℕ → Type 0
IsInner b = b ≢ sysex_end

pub sysex_packets-cons3 :
    (a b c d : ℕ) (rest : List ℕ)
    → sysex_packets (a ∷ b ∷ c ∷ rest ++ d ∷ [])
      ≡ packet 0x04 a b c ∷ sysex_packets (rest ++ d ∷ [])
unfolding sysex_packets
sysex_packets-cons3 a b c d [] = refl
sysex_packets-cons3 a b c d (x ∷ rest) = refl

-- For every frame with no F7 before its end, `sendHello`, which looks for F7, queues the packets
-- that `sendSysExBytes`, which counts bytes, would queue.
pub scanned_packets-sysex_packets :
    (body : List ℕ)
    → All IsInner body
    → scanned_packets (body ++ sysex_end ∷ []) ≡ sysex_packets (body ++ sysex_end ∷ [])
unfolding scanned_packets sysex_packets
scanned_packets-sysex_packets [] h = refl
scanned_packets-sysex_packets (a ∷ []) h = ground arith
scanned_packets-sysex_packets (a ∷ b ∷ []) h = ground arith
scanned_packets-sysex_packets (a ∷ b ∷ c ∷ rest) h =
    ground
      (arith, scanned_packets-sysex_packets rest h.1.1.1, sysex_packets-cons3 a b c sysex_end rest)
