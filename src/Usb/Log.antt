-- ===== src/Usb/Log.antt =====
-- usb_out.cpp, the log of an AtomS3: a ring of bytes that any task fills without waiting (`usbLog`),
-- cut into lines and sent to the host as LOG frames by the MIDI task. The ring is FreeRTOS's, a
-- bounded FIFO of bytes; how many bytes each receive hands out is an argument.
pub mod Text
pub mod Drain
pub mod Arrival
use nowde.Prelude.{
  ℕ, zero, suc, ◌+◌, ◌-◌, Bool, true, false, ◌&&◌, ◌||◌, not, List, [], ◌∷◌, ◌++◌, length, map,
  take, drop, ltb, leb, ◌==◌, if◌then◌else◌,
}
use nowde.Codec.{low7}
use nowde.Usb.{Packet, sysex_start, sysex_end, sysex_packets}
use nowde.Usb.Queue.{UsbOut, usb_out_midi}

-- LOG_RING_BYTES and LOG_LINE_MAX.
abbrev pub log_ring_bytes : ℕ
log_ring_bytes = 8192

abbrev pub log_line_max : ℕ
log_line_max = 100

-- The most that `pumpLog` receives at once.
abbrev pub log_chunk : ℕ
log_chunk = 128

-- `logRing`, `logEnabled`, `logHistory`, and `lineBuf` with its `lineLen` characters.
pub record Log : Type 0 where
  pub ring : List ℕ
  pub enabled : Bool
  pub history : Bool
  pub line : List ℕ

-- As at boot, after `usbOutInit`.
abbrev pub boot_log : Log
boot_log = record { ring = []; enabled = false; history = true; line = [] }

-- `UsbLog::write`: bytes that do not fit are dropped, all of them. The answer is what it returns.
unfoldable pub log_write : List ℕ → Log → Log × ℕ
log_write bytes l =
    if leb (length l.ring + length bytes) log_ring_bytes
    then (record l { ring = l.ring ++ bytes }, length bytes)
    else (l, 0)

-- `UsbLog::availableForWrite`.
unfoldable pub available_for_write : Log → ℕ
available_for_write l = log_ring_bytes - length l.ring

-- `usbOutLogEnable`.
unfoldable pub usb_out_log_enable : Bool → Log → Log
usb_out_log_enable on l = record l { enabled = on; history = false }

-- `F0 7D 31 <ascii> F7`.
abbrev pub log_frame : List ℕ → List ℕ
log_frame text = sysex_start ∷ 0x7D ∷ 0x31 ∷ map low7 text ++ sysex_end ∷ []

-- Packets into the queue, up to the first that finds it full.
unfoldable pub enqueue : List Packet → UsbOut → UsbOut
enqueue [] u = u
enqueue (p ∷ ps) u =
    let (u', ok) = usb_out_midi u p in let rest = enqueue ps u' in if ok then rest else u'

-- `enqueueLogFrame`.
unfoldable pub enqueue_log_frame : List ℕ → UsbOut → UsbOut
enqueue_log_frame text u = enqueue (sysex_packets (log_frame text)) u

-- One byte of `pumpLog`: the line after it, and the line that it sends, if it sends one.
unfoldable pub log_byte : List ℕ → ℕ → List ℕ × List (List ℕ)
log_byte line c =
    let full = c == b'\n' || leb log_line_max (length line) in
    let sent = if full && ltb 0 (length line) then line ∷ [] else [] in
    let kept = if full then [] else line in
    if c == b'\n'
    then (kept, sent)
    else if c == b'\r' || (ltb c 32 || leb 128 c)
    then (kept, sent)
    else (kept ++ c ∷ [], sent)

-- The loop over the bytes of one receive: the line after it, and the lines to send, in order.
unfoldable pub log_bytes : List ℕ → List ℕ → List ℕ × List (List ℕ)
log_bytes line [] = (line, [])
log_bytes line (c ∷ bytes) =
    let (next, sent) = log_byte line c in
    let (last, more) = log_bytes next bytes in (last, sent ++ more)

unfoldable pub enqueue_lines : List (List ℕ) → UsbOut → UsbOut
enqueue_lines [] u = u
enqueue_lines (text ∷ texts) u = enqueue_lines texts (enqueue_log_frame text u)

-- What one receive hands out, with `n` bytes granted.
abbrev pub item_of : ℕ → List ℕ → List ℕ
item_of n ring = take (if ltb log_chunk n then log_chunk else n) ring

abbrev pub ring_after : ℕ → List ℕ → List ℕ
ring_after n ring = drop (if ltb log_chunk n then log_chunk else n) ring

-- One receive of `pumpLog`, of the bytes `item`.
abbrev pub log_item : List ℕ → List ℕ → Log → UsbOut → Log × UsbOut
log_item item rest l u =
    let (line, lines) = log_bytes l.line item in
    if l.enabled
    then (record l { ring = rest; line = line }, enqueue_lines lines u)
    else (record l { ring = rest }, u)

-- The loop of `pumpLog`, with `chunks` receives left; the k-th is granted `grants k` bytes.
unfoldable pub log_chunks : ℕ → (ℕ → ℕ) → Log → UsbOut → Log × UsbOut
log_chunks zero grants l u = (l, u)
log_chunks (suc chunks) grants l u =
    let item = item_of (grants 0) l.ring in
    let (l', u') = log_item item (ring_after (grants 0) l.ring) l u in
    let rest = log_chunks chunks (λ k. grants (suc k)) l' u' in
    if length item == 0 then (l, u) else rest

-- `pumpLog`.
unfoldable pub pump_log : (ℕ → ℕ) → Log → UsbOut → Log × UsbOut
pump_log grants l u = if not l.enabled && l.history then (l, u) else log_chunks 4 grants l u
