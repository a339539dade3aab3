-- ===== src/Sync.antt =====
-- nowde_state.cpp and the state it keeps for a node that follows a master: `MediaSyncState`,
-- `OriginLock`, the node's own sync quality, and the guarded read of the mesh clock.
pub mod Origin
pub mod Clock
use nowde.Prelude.{
  ℕ, ◌+◌, Bool, true, false, ◌&&◌, ◌||◌, not, List, [], ◌∷◌, ltb, leb, ◌==◌, if◌then◌else◌, sub32,
  strn_eq,
}
use nowde.Config.{
  max_layer_length, layer_wildcard, origin_lock_release_ms, role_master, sync_none, sync_coarse,
  sync_locked, link_lost_timeout_ms, host_link_timeout_ms,
}
use nowde.Wire.{Mac, mac_equal}

-- `MediaSyncState`.
pub record MediaSyncState : Type 0 where
  pub current_index : ℕ
  pub current_position_ms : ℕ
  pub current_state : ℕ
  pub last_sync_time : ℕ
  pub local_clock_start_time : ℕ
  pub last_mtc_update_time : ℕ
  pub link_lost : Bool
  pub stop_on_link_lost : Bool
  pub last_sent_index : ℕ
  pub last_cc100_send_time : ℕ
  pub current_volume : ℕ
  pub last_sent_volume : ℕ
  pub last_cc7_send_time : ℕ
  pub coarse : Bool
  pub last_seq : ℕ
  pub have_seq : Bool
  pub sync_gaps : ℕ

-- Its initial values (NOWDE_STOP_ON_LINK_LOST is 1 by default).
abbrev pub initial_sync : MediaSyncState
initial_sync = record {
  current_index = 0;
  current_position_ms = 0;
  current_state = 0;
  last_sync_time = 0;
  local_clock_start_time = 0;
  last_mtc_update_time = 0;
  link_lost = false;
  stop_on_link_lost = true;
  last_sent_index = 255;
  last_cc100_send_time = 0;
  current_volume = 255;
  last_sent_volume = 255;
  last_cc7_send_time = 0;
  coarse = false;
  last_seq = 0;
  have_seq = false;
  sync_gaps = 0;
}

-- `OriginLock`.
pub record OriginLock : Type 0 where
  pub mac : Mac
  pub valid : Bool
  pub pinned : Bool
  pub last_heard : ℕ

abbrev no_mac : Mac
no_mac = record { m0 = 0; m1 = 0; m2 = 0; m3 = 0; m4 = 0; m5 = 0 }

abbrev pub initial_lock : OriginLock
initial_lock = record { mac = no_mac; valid = false; pinned = false; last_heard = 0 }

-- The two globals that following a master works on.
pub record Follower : Type 0 where
  pub sync : MediaSyncState
  pub lock : OriginLock

-- `originRelease`.
unfoldable pub origin_release : Follower → Follower
origin_release f = record {
  sync = record f.sync { have_seq = false };
  lock = record f.lock { valid = false; pinned = false; mac = no_mac };
}

-- Take `origin` as the master from now on; its numbers are not to be compared with another's.
adopt : ℕ → Mac → Follower → Follower
adopt now origin f = record {
  sync = record f.sync { have_seq = false };
  lock = record f.lock { mac = origin; valid = true; last_heard = now };
}

-- `originAccepts`: the state after it, and its answer.
unfoldable pub origin_accepts : ℕ → Mac → Follower → Follower × Bool
unfolding adopt
origin_accepts now origin f =
    if not f.lock.valid
    then (adopt now origin f, true)
    else if mac_equal f.lock.mac origin
    then (record f { lock = record f.lock { last_heard = now } }, true)
    else if not f.lock.pinned && ltb origin_lock_release_ms (sub32 now f.lock.last_heard)
    then (adopt now origin f, true)
    else (f, false)

-- `layerMatches`.
unfoldable pub layer_matches : List ℕ → List ℕ → Bool
layer_matches subscribed packet_layer =
    if strn_eq max_layer_length subscribed layer_wildcard
    then true
    else strn_eq max_layer_length subscribed packet_layer

-- `nodeSyncQuality`. `synced` says that the mesh clock's `getSyncState()` is SYNCED.
unfoldable pub node_sync_quality : ℕ → ℕ → Bool → MediaSyncState → ℕ
node_sync_quality node_role now synced s =
    if node_role == role_master
    then sync_locked
    else if not (s.current_state == 1)
    then sync_none
    else if s.link_lost
    then sync_none
    else if ltb link_lost_timeout_ms (sub32 now s.last_sync_time)
    then sync_none
    else if s.coarse || not synced
    then sync_coarse
    else sync_locked

-- `hostLinked`.
unfoldable pub host_linked : ℕ → ℕ → Bool
host_linked now last_host_rx_time =
    not (last_host_rx_time == 0) && ltb (sub32 now last_host_rx_time) host_link_timeout_ms

-- `static_cast<int32_t>(b - a) < 100`.
abbrev pub reads_agree : ℕ → ℕ → Bool
reads_agree a b = leb 2147483648 (sub32 b a) || ltb (sub32 b a) 100

-- The loop of `meshMillisStable`, over the values that the next reads of the mesh clock give.
stable_read : ℕ → List ℕ → ℕ
stable_read a [] = a
stable_read a (b ∷ rest) = let next = stable_read b rest in if reads_agree a b then b else next

-- `meshMillisStable`: a first read, and four more at most.
unfoldable pub mesh_millis_stable : ℕ → ℕ → ℕ → ℕ → ℕ → ℕ
unfolding stable_read
mesh_millis_stable r0 r1 r2 r3 r4 = stable_read r0 (r1 ∷ r2 ∷ r3 ∷ r4 ∷ [])

-- `masterRelay` and `masterRelayPlaying`.
pub record MasterRelayState : Type 0 where
  pub index : ℕ
  pub position_ms : ℕ
  pub state : ℕ
  pub updated_at : ℕ

unfoldable pub master_relay_playing : ℕ → MasterRelayState → Bool
master_relay_playing now m =
    m.state == 1 && not (m.updated_at == 0) && ltb (sub32 now m.updated_at) 3000
