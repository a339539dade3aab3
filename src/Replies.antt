-- ===== src/Replies.antt =====
-- sysex.cpp: the frames that a node sends to its host.
pub mod Delivery
pub mod Slaves
pub mod Chunks
use nowde.Prelude.{
  ℕ, zero, suc, ◌+◌, ◌-◌, ◌*◌, ◌/◌, ◌%◌, Bool, true, false, ◌&&◌, not, List, [], ◌∷◌, ◌++◌, map,
  length, take, ltb, leb, ◌==◌, if◌then◌else◌, u8, u16, u32, sub32, strnlen,
}
use nowde.Config.{version}
use nowde.Codec.{low7, encode7bit}
use nowde.Usb.{Packet, sysex_start, sysex_end, sysex_packets, scanned_packets, error_packets}
use nowde.Usb.Scan.{running_packets}
use nowde.Wire.{Mac, mac_bytes}
use nowde.Sync.{OriginLock, node_sync_quality}
use nowde.Effects.{Effect, usb}
use nowde.Tables.{ReceiverEntry}
use nowde.Node.{Node, World}

-- `F0 7D cmd body F7`.
abbrev pub frame : ℕ → List ℕ → List ℕ
frame command body = sysex_start ∷ 0x7D ∷ command ∷ body ++ sysex_end ∷ []

-- The four bytes of a word, the high one first.
abbrev pub be32 : ℕ → List ℕ
be32 n = n / 16777216 % 256 ∷ n / 65536 % 256 ∷ n / 256 % 256 ∷ n % 256 ∷ []

abbrev flag : Bool → ℕ
flag b = if b then 1 else 0

-- The sync quality of the node itself.
abbrev pub quality : World → Node → ℕ
quality w n = node_sync_quality n.role w.now w.synced n.follower.sync

-- The gaps that HELLO shows: 14 bits.
abbrev shown_gaps : ℕ → ℕ
shown_gaps gaps = if ltb 0x3FFF gaps then 0x3FFF else gaps

-- The body of HELLO.
unfoldable pub hello_body : World → Node → List ℕ
hello_body w n =
    let gaps = shown_gaps n.follower.sync.sync_gaps in
    encode7bit version
    ++ (encode7bit (be32 w.now)
        ++ (low7 w.reset_reason
            ∷ low7 n.role
            ∷ low7 n.board
            ∷ low7 (quality w n)
            ∷ flag n.lr_enabled
            ∷ low7 (gaps / 128)
            ∷ low7 gaps
            ∷ []))

-- `sendHello`.
unfoldable pub send_hello : World → Node → Effect
send_hello w n = usb (scanned_packets (frame 0x20 (hello_body w n)))

-- `originLock.valid ? (originLock.pinned ? 2 : 1) : 0`.
abbrev lock_state : OriginLock → ℕ
lock_state l = if l.valid then if l.pinned then 2 else 1 else 0

-- The body of CONFIG_STATE.
unfoldable pub config_state_body : Node → List ℕ
config_state_body n =
    let layer_len = strnlen n.subscribed_layer 15 in
    (flag n.rf_simulation
      ∷ low7 (n.rf_max_delay_ms / 128)
      ∷ low7 n.rf_max_delay_ms
      ∷ low7 n.role
      ∷ low7 n.board
      ∷ layer_len
      ∷ map low7 (take layer_len n.subscribed_layer))
    ++ (flag n.follower.sync.stop_on_link_lost
        ∷ lock_state n.follower.lock
        ∷ encode7bit (mac_bytes n.follower.lock.mac))

-- `sendConfigState`.
unfoldable pub send_config_state : Node → Effect
send_config_state n = usb (sysex_packets (frame 0x21 (config_state_body n)))

-- The slaves that RUNNING_STATE lists.
unfoldable pub snapshot : List ReceiverEntry → List ReceiverEntry
snapshot [] = []
snapshot (e ∷ t) = let rest = snapshot t in if e.active && e.connected then e ∷ rest else rest

-- What RUNNING_STATE tells of one slave, 39 bytes.
unfoldable pub receiver_data : ℕ → ReceiverEntry → List ℕ
receiver_data now e =
    mac_bytes e.mac
    ++ (e.layer
        ++ (e.version
            ++ (be32 (sub32 now e.last_seen)
                ++ (1
                    ∷ e.media_index
                    ∷ e.sync_quality
                    ∷ e.sync_gaps / 256 % 256
                    ∷ e.sync_gaps % 256
                    ∷ []))))

-- One chunk: the uptime, the mesh state, the counts, and at most one slave.
unfoldable pub chunk_body : World → ℕ → ℕ → ℕ → List ReceiverEntry → List ℕ
chunk_body w total index count inside =
    encode7bit (be32 w.now)
    ++ (flag w.synced
        ∷ u8 total
        ∷ index
        ∷ count
        ∷ length inside
        ∷ encode7bit (elim inside [ [] ↦ [] | e ∷ t ↦ receiver_data w.now e ]))

-- The chunks from index `i` on. The buffer of 512 bytes always holds one slave.
chunks_from : World → ℕ → ℕ → ℕ → List ReceiverEntry → List (List ℕ)
chunks_from w total count i [] = []
chunks_from w total count i (e ∷ t) =
    chunk_body w total i count (e ∷ []) ∷ chunks_from w total count (suc i) t

-- One chunk for each slave of the snapshot, or one that lists none.
chunks_of : World → List ReceiverEntry → List (List ℕ)
unfolding chunks_from
chunks_of w [] = chunk_body w 0 0 1 [] ∷ []
chunks_of w (e ∷ t) = chunks_from w (length (e ∷ t)) (length (e ∷ t)) 0 (e ∷ t)

-- The bodies of the frames of `sendRunningState`.
unfoldable pub running_state_bodies : World → List ReceiverEntry → List (List ℕ)
unfolding chunks_of
running_state_bodies w table = chunks_of w (snapshot table)

-- The packets of a chunk; a turn of the loop takes one byte at least.
abbrev pub chunk_packets : List ℕ → List Packet
chunk_packets body = let message = frame 0x22 body in running_packets (length message) message 0

-- `sendRunningState`, two times a second at most.
unfoldable pub send_running_state : World → Node → Node × List Effect
send_running_state w n = if ltb (sub32 w.now n.last_running_state) 500 then (n, []) else (
  record n { last_running_state = w.now },
  map (λ body. usb (chunk_packets body)) (running_state_bodies w n.receivers),
)

-- `sendErrorReport`: the length is sent as it is given, the context cut at 32 bytes.
unfoldable pub send_error_report : ℕ → List ℕ → ℕ → Effect
send_error_report code context context_length =
    usb (error_packets (frame 0x30 (code ∷ context_length ∷ take 32 (take context_length context))))
