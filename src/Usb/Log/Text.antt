-- ===== src/Usb/Log/Text.antt =====
-- What the host reads in the log: the printable text, whole and in order, in short lines.
use mathlib.Core.List.{append_assoc}
use nowde.Prelude.{
  ℕ, ◌≤◌, ◌<◌, ◌≡◌, refl, ap, ◌∙◌, sym, Bool, true, ◌&&◌, List, [], ◌∷◌, ◌++◌, length, All,
  All-append, ltb, leb, if◌then◌else◌,
}
use nowde.Usb.Queue.{UsbOut}
use nowde.Usb.Log.{Log, log_line_max, enqueue_lines}

abbrev pub IsPrintable : ℕ → Type 0
IsPrintable c = (32 ≤ c) × (c < 128)

-- The text of the log: the bytes that are no control characters and no UTF-8.
abbrev pub printable : List ℕ → List ℕ
printable [] = []
printable (c ∷ bytes) =
    let rest = printable bytes in if leb 32 c && ltb c 128 then c ∷ rest else rest

-- A line as it is sent.
abbrev pub IsLine : List ℕ → Type 0
IsLine text = (0 < length text) × (length text ≤ log_line_max) × All IsPrintable text

-- A line that is being filled.
abbrev pub IsFilling : List ℕ → Type 0
IsFilling line = (length line ≤ log_line_max) × All IsPrintable line

abbrev pub concat : List (List ℕ) → List ℕ
concat [] = []
concat (text ∷ texts) = text ++ concat texts

concat-append : (xs ys : List (List ℕ)) → concat (xs ++ ys) ≡ concat xs ++ concat ys
concat-append [] ys = refl
concat-append (x ∷ xs) ys =
    ap (λ t. x ++ t) (concat-append xs ys) ∙ sym (append_assoc x (concat xs) (concat ys))

-- What one byte does to the line and to the lines sent.
record Cut (before bytes : List ℕ) (after : List ℕ × List (List ℕ)) : Type 0 where
  text : concat after.1 ++ after.0 ≡ before ++ printable bytes
  lines : All IsLine after.1
  filling : IsFilling after.0

enqueue_lines-append :
    (xs ys : List (List ℕ)) (u : UsbOut)
    → enqueue_lines (xs ++ ys) u ≡ enqueue_lines ys (enqueue_lines xs u)
unfolding enqueue_lines
enqueue_lines-append [] ys u = refl
enqueue_lines-append (x ∷ xs) ys u = enqueue_lines-append xs ys _

-- What pumping an enabled log does: the lines that it sends are lines, and they, the line that is
-- being filled and the ring hold together the text that the line and the ring held before.
pub record Sends (l : Log) (u : UsbOut) (after : Log × UsbOut) : Type 0 where
  pub lines : List (List ℕ)
  pub sent : after.1 ≡ enqueue_lines lines u
  pub whole : All IsLine lines
  pub text : concat lines ++ (after.0.line ++ printable after.0.ring) ≡ l.line ++ printable l.ring
  pub filling : IsFilling after.0.line
  pub enabled : after.0.enabled ≡ true

pub Sends-nothing : (l : Log) (u : UsbOut) → l.enabled ≡ true → IsFilling l.line → Sends l u (l, u)
unfolding enqueue_lines
Sends-nothing l u e h = record {
  lines = [];
  sent = refl;
  whole = tt;
  text = refl;
  filling = h;
  enabled = e;
}

pub Sends-trans :
    (l : Log) (u : UsbOut) (r r' : Log × UsbOut) → Sends l u r → Sends r.0 r.1 r' → Sends l u r'
Sends-trans l u r r' s s' = record {
  lines = s.lines ++ s'.lines;
  sent =
      s'.sent ∙ ap (enqueue_lines s'.lines) s.sent ∙ sym (enqueue_lines-append s.lines s'.lines u);
  whole = All-append IsLine s.lines s'.lines s.whole s'.whole;
  text =
      ap (λ t. t ++ (r'.0.line ++ printable r'.0.ring)) (concat-append s.lines s'.lines)
      ∙ append_assoc (concat s.lines) (concat s'.lines) _
      ∙ ap (λ t. concat s.lines ++ t) s'.text
      ∙ s.text;
  filling = s'.filling;
  enabled = s'.enabled;
}
