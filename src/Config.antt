-- ===== src/Config.antt =====
-- nowde_config.h: the constants of a default build (the DevKit, no `-D` override).
use nowde.Prelude.{ℕ, List, [], ◌∷◌}

abbrev pub max_layer_length : ℕ
max_layer_length = 16

abbrev pub max_version_length : ℕ
max_version_length = 8

abbrev pub max_senders : ℕ
max_senders = 10

abbrev pub max_receivers : ℕ
max_receivers = 10

abbrev pub receiver_timeout_ms : ℕ
receiver_timeout_ms = 5000

abbrev pub sender_timeout_ms : ℕ
sender_timeout_ms = 5000

abbrev pub receiver_beacon_interval_ms : ℕ
receiver_beacon_interval_ms = 1000

abbrev pub sender_beacon_interval_ms : ℕ
sender_beacon_interval_ms = 1000

-- The boards and the roles.
abbrev pub board_atoms3 : ℕ
board_atoms3 = 2

abbrev pub board_atoms3_lite : ℕ
board_atoms3_lite = 3

abbrev pub role_slave : ℕ
role_slave = 0

abbrev pub role_master : ℕ
role_master = 1

abbrev pub role_legacy : ℕ
role_legacy = 2

abbrev pub role_auto : ℕ
role_auto = 0x7F

-- NOWDE_LAYER_WILDCARD, "*".
abbrev pub layer_wildcard : List ℕ
layer_wildcard = b'*' ∷ 0 ∷ []

abbrev pub origin_lock_release_ms : ℕ
origin_lock_release_ms = 2000

abbrev pub mediasync_max_gap : ℕ
mediasync_max_gap = 100

abbrev pub max_hops : ℕ
max_hops = 3

abbrev pub mesh_relay_delay_min_ms : ℕ
mesh_relay_delay_min_ms = 5

abbrev pub mesh_relay_delay_max_ms : ℕ
mesh_relay_delay_max_ms = 30

abbrev pub max_relay_origins : ℕ
max_relay_origins = max_senders

abbrev pub max_pending_relays : ℕ
max_pending_relays = 8

abbrev pub cc100_repeat_interval_ms : ℕ
cc100_repeat_interval_ms = 1000

abbrev pub cc7_repeat_interval_ms : ℕ
cc7_repeat_interval_ms = 1000

abbrev pub host_link_timeout_ms : ℕ
host_link_timeout_ms = 5000

-- NOWDE_SYNC_*: how well a node follows.
abbrev pub sync_none : ℕ
sync_none = 0

abbrev pub sync_coarse : ℕ
sync_coarse = 1

abbrev pub sync_locked : ℕ
sync_locked = 2

abbrev pub sync_unknown : ℕ
sync_unknown = 0xFF

abbrev pub link_lost_timeout_ms : ℕ
link_lost_timeout_ms = 10000

abbrev pub clock_desync_threshold_ms : ℕ
clock_desync_threshold_ms = 200

abbrev pub jump_fullframe_threshold_ms : ℕ
jump_fullframe_threshold_ms = 1000

abbrev pub mesh_resync_grace_ms : ℕ
mesh_resync_grace_ms = 15000

abbrev pub mesh_max_soft_resets : ℕ
mesh_max_soft_resets = 2

abbrev pub mesh_reboot_grace_ms : ℕ
mesh_reboot_grace_ms = 60000

abbrev pub mesh_max_auto_reboots : ℕ
mesh_max_auto_reboots = 2

-- NOWDE_VERSION, "2.0.4", in its buffer of 8.
abbrev pub version : List ℕ
version = b'2' ∷ b'.' ∷ b'0' ∷ b'.' ∷ b'4' ∷ 0 ∷ 0 ∷ 0 ∷ []

-- The ERROR_* codes.
abbrev pub error_config_invalid : ℕ
error_config_invalid = 1

abbrev pub error_sysex_parse : ℕ
error_sysex_parse = 2

abbrev pub error_espnow_send_failed : ℕ
error_espnow_send_failed = 3

abbrev pub error_receiver_timeout : ℕ
error_receiver_timeout = 5
