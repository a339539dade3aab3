-- ===== src/Ota.antt =====
-- sysex.cpp: the firmware update over SysEx, `SYSEX_CMD_OTA_BEGIN`, `_DATA`, `_DATA_ACKED`, `_END`.
pub mod Transfer
use nowde.Prelude.{
  ℕ, ◌+◌, ◌-◌, ◌*◌, Bool, true, false, ◌&&◌, ◌||◌, not, List, [], ◌∷◌, ◌++◌, length, get_or, take,
  drop, ltb, leb, ◌==◌, if◌then◌else◌, u32,
}
use nowde.Config.{error_config_invalid}
use nowde.Codec.{decode7bit}
use nowde.Usb.{sysex_packets}
use nowde.Effects.{Effect, usb, update_abort, update_begin, update_write, update_end, restart}
use nowde.Node.{Node, Ota, World}
use nowde.Replies.{frame, send_error_report}

-- The size in the four bytes of OTA_BEGIN, the high one first.
abbrev pub firmware_size : List ℕ → ℕ
firmware_size b = get_or b 0 0 * 16777216 + get_or b 1 0 * 65536 + get_or b 2 0 * 256 + get_or b 3 0

abbrev pub config_error : Effect
config_error = send_error_report error_config_invalid [] 0

-- `SYSEX_CMD_OTA_BEGIN`.
unfoldable pub ota_begin : World → ℕ → List ℕ → Node → Node × List Effect
ota_begin w len bytes n =
    let size = firmware_size (decode7bit (take 5 (drop 3 bytes))) in
    let aborted = if w.update_running then update_abort ∷ [] else [] in
    let started : Ota = record {
      in_progress = true;
      total = size;
      received = 0;
      start_time = w.now;
    } in
    if ltb len 9
    then (n, [])
    else if not w.update_begins
    then (
      record n { ota = record n.ota { total = size } },
      aborted ++ (update_begin size ∷ config_error ∷ []),
    )
    else (record n { ota = started }, aborted ++ (update_begin size ∷ []))

-- `SYSEX_CMD_OTA_DATA`.
unfoldable pub ota_data : World → ℕ → List ℕ → Node → Node × List Effect
ota_data w len bytes n =
    let decoded = decode7bit (take (len - 4) (drop 3 bytes)) in
    if not (n.ota.in_progress && ltb 4 len)
    then (n, [])
    else if not (w.update_written decoded == length decoded)
    then (
      record n { ota = record n.ota { in_progress = false } },
      update_write decoded ∷ update_abort ∷ config_error ∷ [],
    )
    else (
      record n { ota = record n.ota { received = u32 (n.ota.received + length decoded) } },
      update_write decoded ∷ [],
    )

-- `SYSEX_CMD_OTA_ACK`, with the sequence number of the chunk and how it went.
abbrev pub ota_ack : ℕ → ℕ → Effect
ota_ack seq status = usb (sysex_packets (frame 0x23 (seq ∷ status ∷ [])))

-- `SYSEX_CMD_OTA_DATA_ACKED`. Status 0: written; 1: a chunk of another length than announced, not
-- written; 2: the write failed; 3: no session.
unfoldable pub ota_data_acked : World → ℕ → List ℕ → Node → Node × List Effect
ota_data_acked w len bytes n =
    let seq = if leb 6 len then get_or bytes 3 0 else 0 in
    let want = get_or bytes 4 0 in
    let decoded = decode7bit (take (len - 6) (drop 5 bytes)) in
    if not (n.ota.in_progress && leb 6 len)
    then (n, ota_ack seq 3 ∷ [])
    else if not (length decoded == want) || want == 0
    then (n, ota_ack seq 1 ∷ [])
    else if not (w.update_written decoded == length decoded)
    then (
      record n { ota = record n.ota { in_progress = false } },
      update_write decoded ∷ update_abort ∷ ota_ack seq 2 ∷ [],
    )
    else (
      record n { ota = record n.ota { received = u32 (n.ota.received + length decoded) } },
      update_write decoded ∷ ota_ack seq 0 ∷ [],
    )

-- `SYSEX_CMD_OTA_END`. (After `restart` the handler clears the session too, but the chip is gone.)
unfoldable pub ota_end : World → Node → Node × List Effect
ota_end w n =
    let closed = record n { ota = record n.ota { in_progress = false } } in
    if not n.ota.in_progress
    then (n, [])
    else if not (n.ota.received == n.ota.total)
    then (closed, update_abort ∷ config_error ∷ [])
    else if w.update_ends
    then (closed, update_end ∷ restart ∷ [])
    else (closed, update_end ∷ config_error ∷ [])
