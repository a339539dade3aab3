-- ===== src/Tables.antt =====
-- sender_mode.cpp and receiver_mode.cpp: the tables of masters and of slaves that a node hears,
-- and how entries time out.
pub mod Unique
pub mod Reported
pub mod Timeouts
pub mod Fits
pub mod Aging
use nowde.Prelude.{
  ℕ, ◌+◌, Bool, true, false, ◌&&◌, ◌||◌, not, Option, none, some, List, [], ◌∷◌, ◌++◌, length, set,
  update, ltb, leb, ◌==◌, if◌then◌else◌, sub32, strn_eq, strncpy, take,
}
use nowde.Config.{
  max_layer_length, max_version_length, sender_timeout_ms, receiver_timeout_ms, sync_unknown,
  sync_locked,
}
use nowde.Wire.{
  Mac, mac_equal, ReceiverInfo, receiver_info, receiver_info_min_len, receiver_info_quality_len,
  receiver_info_len,
}
use nowde.Slots.{Slot, found, free, full, find_slot}
use nowde.Effects.{Effect, add_peer, del_peer}

-- `SenderEntry`.
pub record SenderEntry : Type 0 where
  pub mac : Mac
  pub last_seen : ℕ
  pub active : Bool

-- `ReceiverEntry`.
pub record ReceiverEntry : Type 0 where
  pub mac : Mac
  pub layer : List ℕ
  pub version : List ℕ
  pub last_seen : ℕ
  pub active : Bool
  pub connected : Bool
  pub media_index : ℕ
  pub sync_quality : ℕ
  pub sync_gaps : ℕ

-- `countActiveSenders`, `countConnectedReceivers` and `countLockedReceivers`.
unfoldable pub count_active_senders : List SenderEntry → ℕ
count_active_senders [] = 0
count_active_senders (e ∷ t) = (if e.active then 1 else 0) + count_active_senders t

unfoldable pub count_active_receivers : List ReceiverEntry → ℕ
count_active_receivers [] = 0
count_active_receivers (e ∷ t) = (if e.active then 1 else 0) + count_active_receivers t

unfoldable pub count_connected_receivers : List ReceiverEntry → ℕ
count_connected_receivers [] = 0
count_connected_receivers (e ∷ t) =
    (if e.active && e.connected then 1 else 0) + count_connected_receivers t

unfoldable pub count_locked_receivers : List ReceiverEntry → ℕ
count_locked_receivers [] = 0
count_locked_receivers (e ∷ t) =
    (if e.active && (e.connected && e.sync_quality == sync_locked) then 1 else 0)
    + count_locked_receivers t

-- The tests of the search loops.
abbrev pub is_sender : Mac → SenderEntry → Bool
is_sender mac e = e.active && mac_equal e.mac mac

abbrev pub is_receiver : Mac → ReceiverEntry → Bool
is_receiver mac e = e.active && mac_equal e.mac mac

-- `handleSenderBeacon`, once the loop has found its slot.
seen_sender : ℕ → Mac → List SenderEntry → Slot → List SenderEntry × List Effect
seen_sender now src t (found i) = (update (λ e. record e { last_seen = now }) t i, [])
seen_sender now src t (free i) =
    (set t i (record { mac = src; last_seen = now; active = true }), add_peer src ∷ [])
seen_sender now src t full = (t, [])

-- `handleSenderBeacon`.
unfoldable pub handle_sender_beacon : ℕ → Mac → List SenderEntry → List SenderEntry × List Effect
unfolding seen_sender
handle_sender_beacon now src t =
    seen_sender now src t (find_slot (is_sender src) (λ e. not e.active) t 0 none)

-- `strncpy(dest, src, 16)` and the NUL that is forced into the last byte.
abbrev pub layer_buffer : List ℕ → List ℕ
layer_buffer layer = take 15 (strncpy max_layer_length layer) ++ 0 ∷ []

abbrev version_buffer : List ℕ → List ℕ
version_buffer version = take 7 (strncpy max_version_length version) ++ 0 ∷ []

-- What a `ReceiverInfo` of `len` bytes reports: the trailers that an older node leaves out are
-- UNKNOWN and 0.
abbrev pub reported_quality : ℕ → ReceiverInfo → ℕ
reported_quality len i = if leb receiver_info_quality_len len then i.sync_quality else sync_unknown

abbrev pub reported_gaps : ℕ → ReceiverInfo → ℕ
reported_gaps len i = if leb receiver_info_len len then i.sync_gaps else 0

-- An entry that is heard again.
refresh_receiver : ℕ → ℕ → ReceiverInfo → ReceiverEntry → ReceiverEntry
refresh_receiver now len i e = record e {
  last_seen = now;
  media_index = i.media_index;
  sync_quality = reported_quality len i;
  sync_gaps = reported_gaps len i;
  connected = true;
  layer = if strn_eq max_layer_length e.layer i.layer then e.layer else layer_buffer i.layer;
}

-- An entry for a slave that is heard for the first time.
new_receiver : ℕ → ℕ → Mac → ReceiverInfo → ReceiverEntry
new_receiver now len src i = record {
  mac = src;
  layer = layer_buffer i.layer;
  version = version_buffer i.version;
  last_seen = now;
  active = true;
  connected = true;
  media_index = i.media_index;
  sync_quality = reported_quality len i;
  sync_gaps = reported_gaps len i;
}

seen_receiver :
    ℕ → ℕ → Mac → ReceiverInfo → List ReceiverEntry → Slot → List ReceiverEntry × List Effect
unfolding refresh_receiver new_receiver
seen_receiver now len src i t (found k) = (update (refresh_receiver now len i) t k, [])
seen_receiver now len src i t (free k) = (set t k (new_receiver now len src i), add_peer src ∷ [])
seen_receiver now len src i t full = (t, [])

-- `handleReceiverInfo`.
unfoldable pub handle_receiver_info :
    ℕ → Mac → List ℕ → List ReceiverEntry → List ReceiverEntry × List Effect
unfolding seen_receiver
handle_receiver_info now src bytes t =
    let len = length bytes in
    if ltb len receiver_info_min_len
    then (t, [])
    else seen_receiver now len src (receiver_info bytes) t
        (find_slot (is_receiver src) (λ e. not e.active) t 0 none)

-- `cleanupSenderTable`.
unfoldable pub cleanup_sender_table : ℕ → List SenderEntry → List SenderEntry × List Effect
cleanup_sender_table now [] = ([], [])
cleanup_sender_table now (e ∷ t) =
    let (t', effects) = cleanup_sender_table now t in
    if e.active && ltb sender_timeout_ms (sub32 now e.last_seen)
    then (record e { active = false } ∷ t', del_peer e.mac ∷ effects)
    else (e ∷ t', effects)

-- One slot of `cleanupReceiverTable`: missing after 5 s, removed after 10 s.
age_receiver : ℕ → ReceiverEntry → ReceiverEntry
age_receiver now e =
    let age = sub32 now e.last_seen in
    if not e.active
    then e
    else if ltb 10000 age
    then record e { active = false; connected = false }
    else if ltb receiver_timeout_ms age
    then record e { connected = false }
    else e

-- `cleanupReceiverTable`.
unfoldable pub cleanup_receiver_table : ℕ → List ReceiverEntry → List ReceiverEntry × List Effect
unfolding age_receiver
cleanup_receiver_table now [] = ([], [])
cleanup_receiver_table now (e ∷ t) =
    let (t', effects) = cleanup_receiver_table now t in
    (
      age_receiver now e ∷ t',
      if e.active && ltb 10000 (sub32 now e.last_seen) then del_peer e.mac ∷ effects else effects,
    )
