-- ===== src/Usb/Scan.antt =====
-- The loop of `sendRunningState` (sysex.cpp) that cuts a chunk into packets by its position in it.
use nowde.Prelude.{
  ℕ, zero, suc, ◌+◌, ◌≤◌, ◌<◌, ◌≡◌, refl, ap, ◌∙◌, Bool, not, ◌&&◌, List, [], ◌∷◌, length, drop,
  get_or, ltb, ◌==◌, if◌then◌else◌, arith, if_cases,
}
use nowde.Usb.{Packet, packet, sysex_end, scanned_packets}

-- `message[k] == SYSEX_END`, within the message.
abbrev ends_at : List ℕ → ℕ → Bool
ends_at message k = ltb k (length message) && get_or message k 0 == sysex_end

-- The next packet and the position after it; F7 is looked for among the next three bytes.
unfoldable pub next_packet : List ℕ → ℕ → Packet × ℕ
next_packet message pos =
    let total = length message in
    let a = get_or message pos 0 in
    let b = get_or message (pos + 1) 0 in
    let c = get_or message (pos + 2) 0 in
    if ends_at message pos
    then (packet 0x05 a 0 0, pos + 1)
    else if ends_at message (pos + 1)
    then (packet 0x06 a b 0, pos + 2)
    else if ends_at message (pos + 2)
    then (packet 0x07 a b c, pos + 3)
    else if not (ltb (pos + 1) total)
    then (packet 0x04 a 0 0, pos + 1)
    else if not (ltb (pos + 2) total)
    then (packet 0x04 a b 0, pos + 2)
    else (packet 0x04 a b c, pos + 3)

-- The loop, with fuel for each packet.
unfoldable pub running_packets : ℕ → List ℕ → ℕ → List Packet
running_packets zero message pos = []
running_packets (suc fuel) message pos =
    let (p, after) = next_packet message pos in
    let rest = running_packets fuel message after in
    if ltb pos (length message) then p ∷ rest else []

-- What a list holds at a position, from what is left there.
left_at :
    (m : List ℕ) (pos next x : ℕ) (xs : List ℕ)
    → next ≡ pos + 1
    → drop pos m ≡ x ∷ xs
    → (get_or m pos 0 ≡ x) × (drop next m ≡ xs) × (length m ≡ pos + 1 + length xs)
left_at [] zero next x xs k e = ground (arith, e)
left_at [] (suc pos) next x xs k e = ground (arith, e)
left_at (y ∷ m) zero next x xs k e =
    (ground (arith, e), ap (λ i. drop i (y ∷ m)) k ∙ ground (arith, e), ground (arith, e))
left_at (y ∷ m) (suc pos) next x xs k e =
    let (p, q, r) = left_at m pos (pos + 1) x xs refl e in
    let moved : next ≡ suc (pos + 1) = omega (arith, k) in
    (p, ap (λ i. drop i (y ∷ m)) moved ∙ q, omega (arith, r))

left_none : (m : List ℕ) (pos : ℕ) → drop pos m ≡ [] → length m ≤ pos
left_none [] pos e = omega arith
left_none (y ∷ m) zero e = ground (arith, e)
left_none (y ∷ m) (suc pos) e = omega (arith, left_none m pos e)

next_packet_one :
    (m : List ℕ) (pos a : ℕ)
    → drop pos m ≡ a ∷ []
    → next_packet m pos
      ≡ (if a == sysex_end then (packet 0x05 a 0 0, pos + 1) else (packet 0x04 a 0 0, pos + 1))
unfolding next_packet
next_packet_one m pos a e =
    let (p, q, r) = left_at m pos (pos + 1) a [] (omega arith) e in ground (arith, p, r)

next_packet_two :
    (m : List ℕ) (pos a b : ℕ)
    → drop pos m ≡ a ∷ b ∷ []
    → next_packet m pos ≡ (
        if a == sysex_end
        then (packet 0x05 a 0 0, pos + 1)
        else if b == sysex_end
        then (packet 0x06 a b 0, pos + 2)
        else (packet 0x04 a b 0, pos + 2))
unfolding next_packet
next_packet_two m pos a b e =
    let (p, q, r) = left_at m pos (pos + 1) a (b ∷ []) (omega arith) e in
    let (p', q', r') = left_at m (pos + 1) (pos + 2) b [] (omega arith) q in
    ground (arith, p, r, p', r')

next_packet_three :
    (m : List ℕ) (pos a b c : ℕ) (rest : List ℕ)
    → drop pos m ≡ a ∷ b ∷ c ∷ rest
    → next_packet m pos ≡ (
        if a == sysex_end
        then (packet 0x05 a 0 0, pos + 1)
        else if b == sysex_end
        then (packet 0x06 a b 0, pos + 2)
        else (packet (if c == sysex_end then 0x07 else 0x04) a b c, pos + 3))
unfolding next_packet
next_packet_three m pos a b c rest e =
    let (p, q, r) = left_at m pos (pos + 1) a (b ∷ c ∷ rest) (omega arith) e in
    let (p', q', r') = left_at m (pos + 1) (pos + 2) b (c ∷ rest) (omega arith) q in
    let (p'', q'', r'') = left_at m (pos + 2) (pos + 3) c rest (omega arith) q' in
    ground (arith, p, p', p'', r)

running_packets-stops :
    (fuel pos : ℕ) (m : List ℕ) → length m ≤ pos → running_packets fuel m pos ≡ []
unfolding running_packets
running_packets-stops zero pos m l = refl
running_packets-stops (suc fuel) pos m l = ground (arith, l)

-- One turn of the loop.
turn :
    (fuel pos after : ℕ) (m : List ℕ) (p : Packet) (ps : List Packet)
    → next_packet m pos ≡ (p, after)
    → pos < length m
    → running_packets fuel m after ≡ ps
    → running_packets (suc fuel) m pos ≡ p ∷ ps
unfolding running_packets
turn fuel pos after m p ps e l r = rw e (ground (arith, l, r))

-- With a byte of fuel for each byte left, the loop cuts the message as `sendHello` does.
pub running_packets-scanned_packets :
    (fuel pos : ℕ) (m xs : List ℕ)
    → drop pos m ≡ xs
    → length xs ≤ fuel
    → running_packets fuel m pos ≡ scanned_packets xs
unfolding scanned_packets
running_packets-scanned_packets zero pos m [] e l =
    running_packets-stops 0 pos m (left_none m pos e)
running_packets-scanned_packets zero pos m (x ∷ xs) e l = ground (arith, l)
running_packets-scanned_packets (suc fuel) pos m [] e l =
    running_packets-stops (suc fuel) pos m (left_none m pos e)
running_packets-scanned_packets (suc fuel) pos m (a ∷ []) e l =
    let (p, q, r) = left_at m pos (pos + 1) a [] (omega arith) e in
    let first = next_packet_one m pos a e in
    let inside : pos < length m = omega (arith, r) in
    let done = running_packets-scanned_packets fuel (pos + 1) m [] q (omega arith) in
    if_cases (λ z. running_packets (suc fuel) m pos ≡ z) (a == sysex_end) _ _
      (λ h. turn fuel pos (pos + 1) m _ [] (rw h at first) inside done)
      λ h. turn fuel pos (pos + 1) m _ [] (rw h at first) inside done
running_packets-scanned_packets (suc fuel) pos m (a ∷ b ∷ []) e l =
    let (p, q, r) = left_at m pos (pos + 1) a (b ∷ []) (omega arith) e in
    let (p', q', r') = left_at m (pos + 1) (pos + 2) b [] (omega arith) q in
    let first = next_packet_two m pos a b e in
    let inside : pos < length m = omega (arith, r) in
    let one = running_packets-scanned_packets fuel (pos + 1) m (b ∷ []) q (omega (arith, l)) in
    let done = running_packets-scanned_packets fuel (pos + 2) m [] q' (omega arith) in
    if_cases (λ z. running_packets (suc fuel) m pos ≡ z) (a == sysex_end) _ _
      (λ h. turn fuel pos (pos + 1) m _ _ (rw h at first) inside one)
      λ h.
        if_cases (λ z. running_packets (suc fuel) m pos ≡ z) (b == sysex_end) _ _
          (λ k. turn fuel pos (pos + 2) m _ [] (rw (h, k) at first) inside done)
          λ k. turn fuel pos (pos + 2) m _ [] (rw (h, k) at first) inside done
running_packets-scanned_packets (suc fuel) pos m (a ∷ b ∷ c ∷ rest) e l =
    let (p, q, r) = left_at m pos (pos + 1) a (b ∷ c ∷ rest) (omega arith) e in
    let (p', q', r') = left_at m (pos + 1) (pos + 2) b (c ∷ rest) (omega arith) q in
    let (p'', q'', r'') = left_at m (pos + 2) (pos + 3) c rest (omega arith) q' in
    let first = next_packet_three m pos a b c rest e in
    let inside : pos < length m = omega (arith, r) in
    let left = running_packets-scanned_packets fuel in
    if_cases (λ z. running_packets (suc fuel) m pos ≡ z) (a == sysex_end) _ _
      (λ h.
        turn fuel pos (pos + 1) m _ _ (rw h at first) inside
          (left (pos + 1) m (b ∷ c ∷ rest) q (omega (arith, l))))
      λ h.
        if_cases (λ z. running_packets (suc fuel) m pos ≡ z) (b == sysex_end) _ _
          (λ k.
            turn fuel pos (pos + 2) m _ _ (rw (h, k) at first) inside
              (left (pos + 2) m (c ∷ rest) q' (omega (arith, l))))
          λ k.
            turn fuel pos (pos + 3) m _ _ (rw (h, k) at first) inside
              (left (pos + 3) m rest q'' (omega (arith, l)))
