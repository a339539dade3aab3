-- ===== src/Wire.antt =====
-- nowde_config.h: the frames that nodes exchange over ESP-NOW, packed, little endian.
pub mod RoundTrip
use nowde.Prelude.{ℕ, ◌+◌, ◌*◌, ◌/◌, ◌%◌, Bool, ◌&&◌, List, [], ◌∷◌, ◌++◌, get_or, take, drop, ◌==◌}

-- A MAC address.
pub record Mac : Type 0 where
  pub m0 : ℕ
  pub m1 : ℕ
  pub m2 : ℕ
  pub m3 : ℕ
  pub m4 : ℕ
  pub m5 : ℕ

-- `macEqual`.
unfoldable pub mac_equal : Mac → Mac → Bool
mac_equal a b =
    a.m0 == b.m0 && a.m1 == b.m1 && a.m2 == b.m2 && a.m3 == b.m3 && a.m4 == b.m4 && a.m5 == b.m5

abbrev pub mac_bytes : Mac → List ℕ
mac_bytes m = m.m0 ∷ m.m1 ∷ m.m2 ∷ m.m3 ∷ m.m4 ∷ m.m5 ∷ []

-- `memcpy(mac, bytes, 6)`.
abbrev pub mac_of : List ℕ → Mac
mac_of bytes = record {
  m0 = get_or bytes 0 0;
  m1 = get_or bytes 1 0;
  m2 = get_or bytes 2 0;
  m3 = get_or bytes 3 0;
  m4 = get_or bytes 4 0;
  m5 = get_or bytes 5 0;
}

-- `broadcastAddress`.
abbrev pub broadcast_address : Mac
broadcast_address = record { m0 = 255; m1 = 255; m2 = 255; m3 = 255; m4 = 255; m5 = 255 }

abbrev pub le16 : ℕ → List ℕ
le16 n = n % 256 ∷ n / 256 % 256 ∷ []

abbrev pub le32 : ℕ → List ℕ
le32 n = n % 256 ∷ n / 256 % 256 ∷ n / 65536 % 256 ∷ n / 16777216 % 256 ∷ []

abbrev pub read16 : List ℕ → ℕ → ℕ
read16 bytes k = get_or bytes k 0 + 256 * get_or bytes (k + 1) 0

abbrev pub read32 : List ℕ → ℕ → ℕ
read32 bytes k = read16 bytes k + 65536 * read16 bytes (k + 2)

-- The message types.
abbrev pub msg_sender_beacon : ℕ
msg_sender_beacon = 1

abbrev pub msg_receiver_info : ℕ
msg_receiver_info = 2

abbrev pub msg_media_sync : ℕ
msg_media_sync = 3

abbrev pub msg_mesh_relay : ℕ
msg_mesh_relay = 5

-- `MediaSyncPacket`, without its type byte; `layer` is the 16-byte buffer.
pub record MediaSyncPacket : Type 0 where
  pub layer : List ℕ
  pub media_index : ℕ
  pub position_ms : ℕ
  pub state : ℕ
  pub mesh_timestamp : ℕ
  pub volume : ℕ
  pub flags : ℕ
  pub seq : ℕ

-- MEDIA_SYNC_MIN_LEN, MEDIA_SYNC_VOLUME_LEN and `sizeof(MediaSyncPacket)`.
abbrev pub media_sync_min_len : ℕ
media_sync_min_len = 27

abbrev pub media_sync_volume_len : ℕ
media_sync_volume_len = 29

abbrev pub media_sync_len : ℕ
media_sync_len = 31

-- The bytes of the struct, as they are sent.
unfoldable pub media_sync_bytes : MediaSyncPacket → List ℕ
media_sync_bytes p =
    (msg_media_sync ∷ p.layer)
    ++ (p.media_index ∷ le32 p.position_ms
        ++ (p.state ∷ le32 p.mesh_timestamp ++ (p.volume ∷ p.flags ∷ le16 p.seq)))

-- The struct read off received bytes at its fixed offsets. The handlers look at a field only if
-- the frame is long enough for it.
unfoldable pub media_sync_packet : List ℕ → MediaSyncPacket
media_sync_packet bytes = record {
  layer = take 16 (drop 1 bytes);
  media_index = get_or bytes 17 0;
  position_ms = read32 bytes 18;
  state = get_or bytes 22 0;
  mesh_timestamp = read32 bytes 23;
  volume = get_or bytes 27 0;
  flags = get_or bytes 28 0;
  seq = read16 bytes 29;
}

-- `MeshRelayHeader`, ten bytes on the wire.
pub record MeshRelayHeader : Type 0 where
  pub origin : Mac
  pub seq : ℕ
  pub hop : ℕ

abbrev pub mesh_relay_header_len : ℕ
mesh_relay_header_len = 10

unfoldable pub mesh_relay_bytes : MeshRelayHeader → List ℕ
mesh_relay_bytes h = msg_mesh_relay ∷ mac_bytes h.origin ++ (le16 h.seq ++ (h.hop ∷ []))

unfoldable pub mesh_relay_header : List ℕ → MeshRelayHeader
mesh_relay_header bytes = record {
  origin = mac_of (drop 1 bytes);
  seq = read16 bytes 7;
  hop = get_or bytes 9 0;
}

-- `ReceiverInfo`, without its type byte.
pub record ReceiverInfo : Type 0 where
  pub layer : List ℕ
  pub version : List ℕ
  pub media_index : ℕ
  pub sync_quality : ℕ
  pub sync_gaps : ℕ

-- RECEIVER_INFO_MIN_LEN, RECEIVER_INFO_QUALITY_LEN and `sizeof(ReceiverInfo)`.
abbrev pub receiver_info_min_len : ℕ
receiver_info_min_len = 26

abbrev pub receiver_info_quality_len : ℕ
receiver_info_quality_len = 27

abbrev pub receiver_info_len : ℕ
receiver_info_len = 29

unfoldable pub receiver_info_bytes : ReceiverInfo → List ℕ
receiver_info_bytes i =
    (msg_receiver_info ∷ i.layer)
    ++ (i.version ++ (i.media_index ∷ i.sync_quality ∷ le16 i.sync_gaps))

unfoldable pub receiver_info : List ℕ → ReceiverInfo
receiver_info bytes = record {
  layer = take 16 (drop 1 bytes);
  version = take 8 (drop 17 bytes);
  media_index = get_or bytes 25 0;
  sync_quality = get_or bytes 26 0;
  sync_gaps = read16 bytes 27;
}
