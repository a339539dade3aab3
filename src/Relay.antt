-- ===== src/Relay.antt =====
-- mesh_relay.cpp: controlled flooding. A node forwards a MEDIA_SYNC frame once, after a random
-- delay, unless it hears another node forward it first.
pub mod Dedup
pub mod Hops
pub mod Scheduling
pub mod Firing
pub mod Timing
pub mod Pending
use nowde.Prelude.{
  ℕ, zero, suc, ◌+◌, Bool, true, false, ◌&&◌, not, Option, none, some, List, [], ◌∷◌, ◌++◌, map,
  get_elem?, set, take, ltb, ◌==◌, if◌then◌else◌, u8, u32,
}
use nowde.Config.{max_hops}
use nowde.Wire.{Mac, mac_equal, MeshRelayHeader, mesh_relay_bytes, media_sync_len}
use nowde.Slots.{Slot, found, free, full, find_slot}

-- `RelayOriginEntry`: the last sequence number handled for one master.
pub record RelayOriginEntry : Type 0 where
  pub mac : Mac
  pub last_seq : ℕ
  pub valid : Bool

-- `PendingRelay`; `payload` holds its `payloadLen` bytes.
pub record PendingRelay : Type 0 where
  pub active : Bool
  pub send_time : ℕ
  pub origin : Mac
  pub seq : ℕ
  pub hop : ℕ
  pub payload : List ℕ

-- `relayOrigins` and `pendingRelays`.
pub record Relay : Type 0 where
  pub origins : List RelayOriginEntry
  pub pending : List PendingRelay

-- The entry that the search of `findOrCreateOrigin` takes for `origin`.
abbrev pub knows : Mac → RelayOriginEntry → Bool
knows origin e = e.valid && mac_equal e.mac origin

abbrev pub unused : RelayOriginEntry → Bool
unused e = not e.valid

-- The index of the entry: the known one, else the first free one, else slot 0.
abbrev pub slot_index : Slot → ℕ
slot_index (found i) = i
slot_index (free i) = i
slot_index full = 0

-- Whether `entry->valid && entry->lastSeq == seq` for the entry that `findOrCreateOrigin` returns:
-- an entry that it creates is not valid.
pub already_seen : List RelayOriginEntry → ℕ → Slot → Bool
already_seen t seq (found i) = elim (get_elem? t i) [ none ↦ false | some e ↦ e.last_seq == seq ]
already_seen t seq _ = false

-- The table once the entry is marked (`entry->valid = true; entry->lastSeq = seq`).
mark_seen : List RelayOriginEntry → Mac → ℕ → Slot → List RelayOriginEntry
mark_seen t origin seq s =
    set t (slot_index s) (record { mac = origin; last_seq = seq; valid = true })

abbrev pub origin_slot : List RelayOriginEntry → Mac → Slot
origin_slot t origin = find_slot (knows origin) unused t 0 none

-- A pending forward of this very packet.
abbrev pub awaits : Mac → ℕ → PendingRelay → Bool
awaits origin seq p = p.active && p.seq == seq && mac_equal p.origin origin

-- `suppressPending`.
pub suppress_pending : Mac → ℕ → List PendingRelay → List PendingRelay
suppress_pending origin seq =
    map (λ p. if awaits origin seq p then record p { active = false } else p)

-- The last loop of `handleFloodCandidate`: the first inactive slot takes the forward; with none
-- left it is dropped.
pub schedule : PendingRelay → List PendingRelay → List PendingRelay
schedule q [] = []
schedule q (p ∷ rest) = if p.active then p ∷ schedule q rest else q ∷ rest

-- What `handleFloodCandidate` does once the packet is known to be new.
forward : Mac → ℕ → ℕ → List ℕ → ℕ → List PendingRelay → List PendingRelay
forward origin seq received_hop inner send_time pending =
    let new_hop = u8 (received_hop + 1) in
    let relay : PendingRelay = record {
      active = true;
      send_time = send_time;
      origin = origin;
      seq = seq;
      hop = new_hop;
      payload = take media_sync_len inner;
    } in
    if ltb max_hops new_hop then pending else schedule relay pending

-- `handleFloodCandidate`. `my_mac` is this station's address, `delay` what `random` draws from
-- 5 to 30 ms.
unfoldable pub handle_flood_candidate : Mac → ℕ → ℕ → Mac → ℕ → ℕ → List ℕ → Bool → Relay → Relay
unfolding already_seen mark_seen suppress_pending forward schedule
handle_flood_candidate my_mac now delay origin seq received_hop inner is_relay r =
    let pending = if is_relay then suppress_pending origin seq r.pending else r.pending in
    let s = origin_slot r.origins origin in
    let marked = mark_seen r.origins origin seq s in
    if mac_equal origin my_mac then r else record {
      origins = marked;
      pending =
          if already_seen r.origins seq s
          then pending
          else forward origin seq received_hop inner (u32 (now + delay)) pending;
    }

-- A pending forward whose time has come: `active && !(now < sendTime)`.
abbrev pub is_due : ℕ → PendingRelay → Bool
is_due now p = p.active && not (ltb now p.send_time)

-- The frame that is broadcast: the envelope, then the packet as it was received.
abbrev pub relay_frame : PendingRelay → List ℕ
relay_frame p =
    mesh_relay_bytes (record { origin = p.origin; seq = p.seq; hop = p.hop }) ++ p.payload

-- The loop of `processPendingRelays`: the table after it, and the frames handed to `relaySend`.
fire : ℕ → List PendingRelay → List PendingRelay × List (List ℕ)
fire now [] = ([], [])
fire now (p ∷ rest) =
    let (rest', frames) = fire now rest in
    if is_due now p
    then (record p { active = false } ∷ rest', relay_frame p ∷ frames)
    else (p ∷ rest', frames)

-- `processPendingRelays`.
unfoldable pub process_pending_relays : ℕ → Relay → Relay × List (List ℕ)
unfolding fire
process_pending_relays now r =
    let (pending, frames) = fire now r.pending in (record r { pending = pending }, frames)
