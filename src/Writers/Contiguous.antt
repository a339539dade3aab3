-- ===== src/Writers/Contiguous.antt =====
-- The lock keeps each frame whole.
use mathlib.Core.List.{append_assoc}
use mathlib.Core.Option.{some-injective}
use nowde.Prelude.{
  ℕ, ◌≢◌, ◌⊎◌, ◌<◌, ◌≡◌, refl, ap, sym, ◌∙◌, Bool, false, Option, none, some, List, [], ◌∷◌, ◌++◌,
  All, All-append, length, ◌==◌, if◌then◌else◌, append-nil, arith, inl, inr, Bool-cases,
}
use nowde.Usb.{Packet, fresh_reader, read_packets}
use nowde.Usb.Queue.{UsbOut, usb_out_midi, usb_out_pump, midi_queue_packets}
use nowde.Usb.Queue.Order.{IsFlowing, usb_out_pump-append}
use nowde.Writers.{
  Call, call_packets, CallFits, Pc, idle, writing, Writers, put_at, usb_out_lock, write_next,
  usb_out_unlock, write_single, pump_out, HasRoom, Step, locks, writes, unlocks, passes, pumps,
  Reach, here, next, IsShort, stream,
}
use nowde.Writers.Frames.{
  is_sysex, sysex_of, sysex_of-append, read_packets-sysex_of, calls_frames, calls_packets,
  calls_packets_last, calls-read,
}

-- What the holder has left to write.
abbrev pc_left : Pc → List Packet
pc_left idle = []
pc_left (writing ps) = ps

abbrev left : Option ℕ → (ℕ → Pc) → List Packet
left none pc = []
left (some i) pc = pc_left (pc i)

-- Only the holder writes, and what was written of SysEx, with what the holder has left, is the
-- calls' packets one after the other.
record IsContiguous (s : Writers) : Type 0 where
  exclusive : (i : ℕ) (ps : List Packet) → s.pc i ≡ writing ps → s.holder ≡ some i
  fit : All CallFits s.calls
  whole : sysex_of (stream s ++ left s.holder s.pc) ≡ sysex_of (calls_packets s.calls)

IsShort-sysex : (p : Packet) → IsShort p → is_sysex p ≡ false
IsShort-sysex p h = ground arith

pub write_lem :
    (u : UsbOut) (p : Packet)
    → length u.queue < midi_queue_packets
    → (usb_out_midi u p).0.queue ≡ u.queue ++ p ∷ []
unfolding usb_out_midi
write_lem u p h = ground arith

pub put_at_self : (i : ℕ) (p : Pc) (pc : ℕ → Pc) → put_at i p pc i ≡ p
put_at_self i p pc = ground arith

put_at-cases :
    (i j : ℕ) (p : Pc) (pc : ℕ → Pc)
    → ((i ≡ j) × (put_at i p pc j ≡ p)) ⊎ ((i ≢ j) × (put_at i p pc j ≡ pc j))
put_at-cases i j p pc = elim (Bool-cases (i == j)) [
  | inl e ↦ inl (ground arith, rw e refl)
  | inr e ↦ inr ((λ k. ground arith), rw e refl)
]

regroup :
    (xs ys zs : List Packet) (p : Packet) → (xs ++ (ys ++ p ∷ [])) ++ zs ≡ (xs ++ ys) ++ p ∷ zs
regroup xs ys zs p = simp append_assoc

module _ {s : Writers} (q : IsContiguous s) where
  locks-IsContiguous :
      (i : ℕ) (c : Call) → s.holder ≡ none → CallFits c → IsContiguous (usb_out_lock i c s)
  locks-IsContiguous i c free fits = record {
    exclusive = λ j ps e. elim (put_at-cases i j (writing (call_packets c)) s.pc) [
      | inl (k, _) ↦ ap some k
      | inr (_, k) ↦ absurd (cc (q.exclusive j ps (sym k ∙ e), free))
    ];
    fit = All-append CallFits s.calls (c ∷ []) q.fit (fits, tt);
    whole =
        let before : sysex_of (stream s) ≡ sysex_of (calls_packets s.calls) =
          ap sysex_of (sym (append-nil (stream s)))
          ∙ ap (λ h. sysex_of (stream s ++ left h s.pc)) (sym free)
          ∙ q.whole in
        ap (λ k. sysex_of (stream s ++ pc_left k)) (put_at_self i (writing (call_packets c)) s.pc)
        ∙ sysex_of-append (stream s) (call_packets c)
        ∙ ap (λ k. k ++ sysex_of (call_packets c)) before
        ∙ sym (sysex_of-append (calls_packets s.calls) (call_packets c))
        ∙ ap (λ k. sysex_of k) (sym (calls_packets_last s.calls c));
  }

  writes-IsContiguous :
      (i : ℕ) (p : Packet) (ps : List Packet)
      → s.pc i ≡ writing (p ∷ ps)
      → HasRoom s
      → IsContiguous (write_next i p ps s)
  writes-IsContiguous i p ps at room =
      let held = q.exclusive i (p ∷ ps) at in
      let after = put_at i (writing ps) s.pc in
      record {
        exclusive = λ j rest e. elim (put_at-cases i j (writing ps) s.pc) [
          | inl (k, _) ↦ held ∙ ap some k
          | inr (_, k) ↦ q.exclusive j rest (sym k ∙ e)
        ];
        fit = q.fit;
        whole =
            ap (λ k. sysex_of ((s.sent ++ k) ++ left s.holder after)) (write_lem s.out p room)
            ∙ ap (λ h. sysex_of ((s.sent ++ (s.out.queue ++ p ∷ [])) ++ left h after)) held
            ∙ ap (λ k. sysex_of ((s.sent ++ (s.out.queue ++ p ∷ [])) ++ pc_left k))
                (put_at_self i (writing ps) s.pc)
            ∙ ap sysex_of (regroup s.sent s.out.queue ps p)
            ∙ ap (λ k. sysex_of (stream s ++ pc_left k)) (sym at)
            ∙ ap (λ h. sysex_of (stream s ++ left h s.pc)) (sym held)
            ∙ q.whole;
      }

  unlocks-IsContiguous : (i : ℕ) → s.pc i ≡ writing [] → IsContiguous (usb_out_unlock i s)
  unlocks-IsContiguous i at =
      let held = q.exclusive i [] at in
      record {
        exclusive = λ j ps e. elim (put_at-cases i j idle s.pc) [
          | inl (_, k) ↦ absurd (cc (k, e))
          | inr (d, k) ↦ absurd (d (some-injective i j (sym held ∙ q.exclusive j ps (sym k ∙ e))))
        ];
        fit = q.fit;
        whole =
            ap (λ k. sysex_of (stream s ++ pc_left k)) (sym at)
            ∙ ap (λ h. sysex_of (stream s ++ left h s.pc)) (sym held)
            ∙ q.whole;
      }

  passes-IsContiguous : (p : Packet) → IsShort p → HasRoom s → IsContiguous (write_single p s)
  unfolding sysex_of
  passes-IsContiguous p short room =
      let rest = left s.holder s.pc in
      record {
        exclusive = q.exclusive;
        fit = q.fit;
        whole =
            ap (λ k. sysex_of ((s.sent ++ k) ++ rest)) (write_lem s.out p room)
            ∙ ap sysex_of (regroup s.sent s.out.queue rest p)
            ∙ sysex_of-append (stream s) (p ∷ rest)
            ∙ ap (λ b. sysex_of (stream s) ++ (if b then p ∷ sysex_of rest else sysex_of rest))
                (IsShort-sysex p short)
            ∙ sym (sysex_of-append (stream s) rest)
            ∙ q.whole;
      }

  pumps-IsContiguous :
      (accepts : ℕ → Bool) (now : ℕ)
      → IsFlowing now s.out.stalled_since
      → IsContiguous (pump_out accepts now s)
  pumps-IsContiguous accepts now flow =
      let (u, taken) = usb_out_pump accepts now s.out in
      record {
        exclusive = q.exclusive;
        fit = q.fit;
        whole =
            ap (λ k. sysex_of (k ++ left s.holder s.pc))
              (append_assoc s.sent taken u.queue
                ∙ ap (λ k. s.sent ++ k) (usb_out_pump-append accepts now s.out flow))
            ∙ q.whole;
      }

Step-IsContiguous : {s t : Writers} → Step IsShort s t → IsContiguous s → IsContiguous t
Step-IsContiguous (locks i c free outside fits) q = locks-IsContiguous q i c free fits
Step-IsContiguous (writes i p ps at room) q = writes-IsContiguous q i p ps at room
Step-IsContiguous (unlocks i at) q = unlocks-IsContiguous q i at
Step-IsContiguous (passes p short room) q = passes-IsContiguous q p short room
Step-IsContiguous (pumps accepts now flow) q = pumps-IsContiguous q accepts now flow

Reach-IsContiguous : {s : Writers} → Reach IsShort s → IsContiguous s
unfolding calls_packets
Reach-IsContiguous here = record { exclusive = λ i ps e. cc; fit = tt; whole = refl }
Reach-IsContiguous (next r step) = Step-IsContiguous step (Reach-IsContiguous r)

-- However tasks that write under the lock interleave, with one another, with control changes and
-- real-time bytes that are written with no lock, and with the pump, as long as the queue has room
-- and the host reads: while nobody holds the lock, a reader of all that was written gets the frame
-- of each call whole, once, in the order in which the calls got the lock, and nothing else.
pub Reach-whole :
    (s : Writers)
    → Reach IsShort s
    → s.holder ≡ none
    → read_packets fresh_reader (stream s) ≡ (fresh_reader, calls_frames s.calls)
Reach-whole s r e =
    let q = Reach-IsContiguous r in
    read_packets-sysex_of fresh_reader (stream s)
    ∙ ap (read_packets fresh_reader) (
        ap sysex_of (sym (append-nil (stream s)))
        ∙ ap (λ h. sysex_of (stream s ++ left h s.pc)) (sym e)
        ∙ q.whole)
    ∙ sym (read_packets-sysex_of fresh_reader (calls_packets s.calls))
    ∙ calls-read s.calls q.fit
