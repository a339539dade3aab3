-- ===== src/Wire/RoundTrip.antt =====
-- A frame that one node builds is the frame that another reads.
use nowde.Prelude.{
  ℕ, zero, suc, ◌+◌, ◌<◌, ◌^◌, ◌≡◌, refl, ap, ◌∙◌, length-append, true, List, [], ◌∷◌, ◌++◌, length,
  get_or, take, drop, arith,
}
use nowde.Wire.{
  Mac, mac_equal, MediaSyncPacket, media_sync_bytes, media_sync_packet, MeshRelayHeader,
  mesh_relay_bytes, mesh_relay_header, ReceiverInfo, receiver_info, receiver_info_bytes,
  receiver_info_len, le16, le32, read16, read32,
}

pub mac_equal-eq : (a b : Mac) → mac_equal a b ≡ true → a ≡ b
unfolding mac_equal
mac_equal-eq a b h = ground arith

pub mac_equal_refl : (a : Mac) → mac_equal a a ≡ true
unfolding mac_equal
mac_equal_refl a = ground arith

-- Behind a prefix of known length the bytes are those of the rest.
pub get_or-append :
    (xs ys : List ℕ) (n k : ℕ) → n ≡ length xs + k → get_or (xs ++ ys) n 0 ≡ get_or ys k 0
get_or-append [] ys n k e = ap (λ j. get_or ys j 0) (omega arith)
get_or-append (x ∷ xs) ys zero k e = absurd (omega arith)
get_or-append (x ∷ xs) ys (suc n) k e = get_or-append xs ys n k (omega arith)

pub take-append : (n : ℕ) (xs ys : List ℕ) → length xs ≡ n → take n (xs ++ ys) ≡ xs
take-append zero [] ys e = refl
take-append zero (x ∷ xs) ys e = absurd (omega arith)
take-append (suc n) [] ys e = absurd (omega arith)
take-append (suc n) (x ∷ xs) ys e = ap (λ l. x ∷ l) (take-append n xs ys (omega arith))

pub drop-append : (n : ℕ) (xs ys : List ℕ) → length xs ≡ n → drop n (xs ++ ys) ≡ ys
drop-append zero [] ys e = refl
drop-append zero (x ∷ xs) ys e = absurd (omega arith)
drop-append (suc n) [] ys e = absurd (omega arith)
drop-append (suc n) (x ∷ xs) ys e = drop-append n xs ys (omega arith)

-- The fields hold what their C types can hold.
pub record MediaSyncPacketIsValid (p : MediaSyncPacket) : Type 0 where
  pub layer : length p.layer ≡ 16
  pub position : p.position_ms < 2 ^ 32
  pub timestamp : p.mesh_timestamp < 2 ^ 32
  pub seq : p.seq < 2 ^ 16

-- A MEDIA_SYNC frame is read back field by field as it was written.
pub media_sync_packet-media_sync_bytes :
    (p : MediaSyncPacket) → MediaSyncPacketIsValid p → media_sync_packet (media_sync_bytes p) ≡ p
unfolding media_sync_packet media_sync_bytes
media_sync_packet-media_sync_bytes p v =
    let tail : List ℕ =
      p.media_index ∷ le32 p.position_ms
      ++ (p.state ∷ le32 p.mesh_timestamp ++ (p.volume ∷ p.flags ∷ le16 p.seq)) in
    let at =
      λ (n k : ℕ) (e : n ≡ 17 + k). get_or-append (3 ∷ p.layer) tail n k (omega (arith, v.layer)) in
    let l : take 16 (p.layer ++ tail) ≡ p.layer = take-append 16 p.layer tail v.layer in
    let w : read32 (3 ∷ p.layer ++ tail) 18 ≡ p.position_ms = omega (
      arith,
      v.position,
      at 18 1 (omega arith),
      at 19 2 (omega arith),
      at 20 3 (omega arith),
      at 21 4 (omega arith),
    ) in
    let t : read32 (3 ∷ p.layer ++ tail) 23 ≡ p.mesh_timestamp = omega (
      arith,
      v.timestamp,
      at 23 6 (omega arith),
      at 24 7 (omega arith),
      at 25 8 (omega arith),
      at 26 9 (omega arith),
    ) in
    let s : read16 (3 ∷ p.layer ++ tail) 29 ≡ p.seq =
      omega (arith, v.seq, at 29 12 (omega arith), at 30 13 (omega arith)) in
    λ i. record {
      layer = l i;
      media_index = at 17 0 (omega arith) i;
      position_ms = w i;
      state = at 22 5 (omega arith) i;
      mesh_timestamp = t i;
      volume = at 27 10 (omega arith) i;
      flags = at 28 11 (omega arith) i;
      seq = s i;
    }

-- So is a relay header, whatever follows it on the wire.
pub mesh_relay_header-mesh_relay_bytes :
    (h : MeshRelayHeader) (inner : List ℕ)
    → h.seq < 2 ^ 16
    → (mesh_relay_header (mesh_relay_bytes h ++ inner) ≡ h)
      × (drop 10 (mesh_relay_bytes h ++ inner) ≡ inner)
unfolding mesh_relay_header mesh_relay_bytes
mesh_relay_header-mesh_relay_bytes h inner b = (ground arith, refl)

-- The buffers have their sizes, and the counter its type's.
pub record ReceiverInfoIsValid (i : ReceiverInfo) : Type 0 where
  pub layer : length i.layer ≡ 16
  pub version : length i.version ≡ 8
  pub gaps : i.sync_gaps < 2 ^ 16

-- A RECEIVER_INFO frame is read back field by field as it was written, and has its full length.
pub receiver_info-receiver_info_bytes :
    (i : ReceiverInfo)
    → ReceiverInfoIsValid i
    → (receiver_info (receiver_info_bytes i) ≡ i)
      × (length (receiver_info_bytes i) ≡ receiver_info_len)
unfolding receiver_info receiver_info_bytes
receiver_info-receiver_info_bytes i v =
    let tail : List ℕ = i.media_index ∷ i.sync_quality ∷ le16 i.sync_gaps in
    let rest : List ℕ = i.version ++ tail in
    let at = λ (n k : ℕ) (e : n ≡ 25 + k).
      get_or-append (2 ∷ i.layer) rest n (8 + k) (omega (arith, v.layer))
      ∙ get_or-append i.version tail (8 + k) k (omega (arith, v.version)) in
    let l : take 16 (i.layer ++ rest) ≡ i.layer = take-append 16 i.layer rest v.layer in
    let b : take 8 (drop 16 (i.layer ++ rest)) ≡ i.version =
      ap (take 8) (drop-append 16 i.layer rest v.layer) ∙ take-append 8 i.version tail v.version in
    let g : read16 (2 ∷ i.layer ++ rest) 27 ≡ i.sync_gaps =
      omega (arith, v.gaps, at 27 2 (omega arith), at 28 3 (omega arith)) in
    (
      λ k. record {
        layer = l k;
        version = b k;
        media_index = at 25 0 (omega arith) k;
        sync_quality = at 26 1 (omega arith) k;
        sync_gaps = g k;
      },
      omega (arith, v.layer, v.version, length-append i.layer rest, length-append i.version tail),
    )
