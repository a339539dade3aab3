-- ===== src/Host/LongFrames.antt =====
-- Frames that the reader takes and the handler does not.
use nowde.Prelude.{
  ℕ, zero, suc, ◌+◌, ◌-◌, ◌≤◌, ◌<◌, ◌≡◌, refl, ◌≢◌, false, ◌||◌, not, List, [], ◌∷◌, ◌++◌, length,
  length-append, get_or, All, arith, ltb, ◌==◌, u8, if_cases,
}
use nowde.Codec.RoundTrip.{IsData}
use nowde.Usb.{sysex_buffer_size}
use nowde.Usb.Reassembly.{frame}
use nowde.Effects.{Effect}
use nowde.Node.{Node, World}
use nowde.Sysex.{handle_sysex_message}

get_or-IsData :
    (body rest : List ℕ) (k : ℕ)
    → All IsData body
    → k < length body
    → get_or (body ++ rest) k 0 < 128
get_or-IsData [] rest k h l = elim l [ ]
get_or-IsData (b ∷ body) rest zero h l = h.0
get_or-IsData (b ∷ body) rest (suc k) h l = get_or-IsData body rest k h.1 (omega arith)

-- A byte of the frame before its F7, behind its F0.
inner_byte :
    (body : List ℕ) (k : ℕ)
    → All IsData body
    → 0 < k
    → k ≤ length body
    → get_or (frame body) k 0 ≢ 0xF7
inner_byte body zero h p l e = elim p [ ]
inner_byte body (suc k) h p l e = omega (arith, e, get_or-IsData body (0xF7 ∷ []) k h (omega arith))

cut_length :
    (len : ℕ)
    → 256 ≤ len
    → len ≤ 512
    → ltb (u8 len) 2 ≡ false
    → (0 < u8 len - 1) × (u8 len - 1 + 2 ≤ len)
cut_length len l u e = ground arith

-- A frame of 256 to 512 bytes, which `midiProcess` puts together whole, is not handled: the length
-- that `handleSysExMessage` gets is a byte, and the byte that it then takes for the last is not F7.
-- Nothing changes and nothing is answered, not even an error.
pub long_frame_ignored :
    (w : World) (body : List ℕ) (n : Node)
    → All IsData body
    → 256 ≤ length (frame body)
    → length (frame body) ≤ sysex_buffer_size
    → handle_sysex_message w (u8 (length (frame body))) (frame body) n ≡ (n, [])
unfolding handle_sysex_message
long_frame_ignored w body n h l u =
    let len = u8 (length (frame body)) in
    if_cases (λ (r : Node × List Effect). r ≡ (n, [])) (ltb len 2) _ _ (λ e. refl)
      λ e.
        if_cases (λ (r : Node × List Effect). r ≡ (n, []))
          (not (0xF0 == 0xF0) || not (get_or (frame body) (len - 1) 0 == 0xF7)) _ _ (λ q. refl)
          λ q.
            let size = length-append body (0xF7 ∷ []) in
            let within = cut_length (length (frame body)) l u e in
            absurd (
              inner_byte body (len - 1) h (omega (arith, within.0)) (omega (arith, within.1, size))
                (ground arith))
