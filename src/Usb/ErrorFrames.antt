-- ===== src/Usb/ErrorFrames.antt =====
-- `sendErrorReport` cuts its frame in its own way: what the packets carry, and under which code.
use nowde.Prelude.{
  ℕ, ◌≤◌, ◌<◌, ◌≡◌, refl, ◌≢◌, ◌⊎◌, inl, ◌%◌, List, [], ◌∷◌, ◌++◌, length, All, arith,
}
use nowde.Usb.{Packet, sysex_end, sysex_packets, error_packets, error_tail}
use nowde.Usb.Frames.{sysex_packets-cons3}
use mathlib.Core.Path.{subst}

-- The code of a packet.
abbrev pub headers : List Packet → List ℕ
headers [] = []
headers (p ∷ ps) = p.header ∷ headers ps

-- A code that says that SysEx goes on, or that it ends with a lone byte.
abbrev pub IsPlain : ℕ → Type 0
IsPlain h = (h ≡ 0x04) ⊎ (h ≡ 0x05)

error_tail-IsPlain : (m : List ℕ) → All IsPlain (headers (error_tail m))
unfolding error_tail
error_tail-IsPlain [] = tt
error_tail-IsPlain (a ∷ []) = ground arith
error_tail-IsPlain (a ∷ b ∷ []) = (inl refl, tt)
error_tail-IsPlain (a ∷ b ∷ c ∷ rest) = (inl refl, error_tail-IsPlain rest)

error_packets-IsPlain : (m : List ℕ) → All IsPlain (headers (error_packets m))
unfolding error_packets
error_packets-IsPlain [] = tt
error_packets-IsPlain (a ∷ []) = (inl refl, tt)
error_packets-IsPlain (a ∷ b ∷ []) = (inl refl, tt)
error_packets-IsPlain (a ∷ b ∷ c ∷ rest) = (inl refl, error_tail-IsPlain rest)

-- The right cut of a frame ends under 06 or 07, but where one byte stands alone.
sysex_packets-not-IsPlain :
    (m : List ℕ) → 0 < length m → length m % 3 ≢ 1 → ¬ All IsPlain (headers (sysex_packets m))
unfolding sysex_packets
sysex_packets-not-IsPlain [] l h a = elim l [ ]
sysex_packets-not-IsPlain (a ∷ []) l h p = h refl
sysex_packets-not-IsPlain (a ∷ b ∷ []) l h p = omega arith
sysex_packets-not-IsPlain (a ∷ b ∷ c ∷ []) l h p = omega arith
sysex_packets-not-IsPlain (a ∷ b ∷ c ∷ d ∷ rest) l h p =
    sysex_packets-not-IsPlain (d ∷ rest) (omega arith) (omega arith) p.1

error_tail-sysex_packets :
    (body : List ℕ)
    → length body % 3 ≡ 0
    → error_tail (body ++ sysex_end ∷ []) ≡ sysex_packets (body ++ sysex_end ∷ [])
unfolding error_tail sysex_packets
error_tail-sysex_packets [] h = refl
error_tail-sysex_packets (a ∷ []) h = absurd (omega arith)
error_tail-sysex_packets (a ∷ b ∷ []) h = absurd (omega arith)
error_tail-sysex_packets (a ∷ b ∷ c ∷ rest) h =
    rw (sysex_packets-cons3 a b c sysex_end rest, error_tail-sysex_packets rest (omega arith))

-- `sendErrorReport` cuts a frame of three bytes or more, F7 its last, as `sendSysExBytes` does
-- if its length leaves remainder 1 on division by 3.
pub error_packets-sysex_packets :
    (body : List ℕ)
    → 3 ≤ length body
    → length body % 3 ≡ 0
    → error_packets (body ++ sysex_end ∷ []) ≡ sysex_packets (body ++ sysex_end ∷ [])
unfolding error_packets sysex_packets
error_packets-sysex_packets [] l h = absurd (omega arith)
error_packets-sysex_packets (a ∷ []) l h = absurd (omega arith)
error_packets-sysex_packets (a ∷ b ∷ []) l h = absurd (omega arith)
error_packets-sysex_packets (a ∷ b ∷ c ∷ rest) l h =
    rw (sysex_packets-cons3 a b c sysex_end rest, error_tail-sysex_packets rest (omega arith))

-- For a frame, not empty, whose length leaves remainder 0 or 2 on division by 3, `sendErrorReport`
-- does not make the packets that `sendSysExBytes` makes: it has no packet that ends a frame after
-- two or three bytes.
pub error_packets-ne-sysex_packets :
    (m : List ℕ) → 0 < length m → length m % 3 ≢ 1 → error_packets m ≢ sysex_packets m
error_packets-ne-sysex_packets m l h e =
    sysex_packets-not-IsPlain m l h
      (subst (λ ps. All IsPlain (headers ps)) e (error_packets-IsPlain m))
