-- ===== src/Tables/Fits.antt =====
-- Every value that the tables keep fits its C type.
use nowde.Prelude.{
  ℕ, zero, suc, ◌^◌, ◌<◌, ◌≤◌, ◌≡◌, refl, ap, ◌∙◌, Bool, true, false, not, ◌&&◌, none, List, [],
  ◌∷◌, ◌++◌, All, All-append, length, length-append, length-set, length-update, All-set, All-update,
  take, drop, get_or, strncpy, length-strncpy, ltb, leb, ◌==◌, if_both, arith, strn_eq, sub32,
}
use nowde.Codec.RoundTrip.{IsByte, All-take, All-drop}
use nowde.Wire.{
  Mac, mac_bytes, receiver_info, receiver_info_min_len, receiver_info_quality_len,
  receiver_info_len,
}
use nowde.Config.{max_layer_length, sender_timeout_ms, receiver_timeout_ms}
use nowde.Slots.{Slot, found, free, full, find_slot}
use nowde.Effects.{Effect}
use nowde.Tables.{
  SenderEntry, ReceiverEntry, is_sender, is_receiver, layer_buffer, reported_quality, reported_gaps,
  handle_sender_beacon, seen_sender, handle_receiver_info, seen_receiver, refresh_receiver,
  new_receiver, cleanup_sender_table, cleanup_receiver_table, age_receiver,
}

-- A `char` buffer of `k` bytes.
abbrev pub IsBuffer : ℕ → List ℕ → Type 0
IsBuffer k xs = (length xs ≡ k) × All IsByte xs

abbrev pub MacFits : Mac → Type 0
MacFits m = All IsByte (mac_bytes m)

pub record SenderFits (e : SenderEntry) : Type 0 where
  pub mac : MacFits e.mac
  pub last_seen : e.last_seen < 2 ^ 32

pub record ReceiverFits (e : ReceiverEntry) : Type 0 where
  pub mac : MacFits e.mac
  pub layer : IsBuffer 16 e.layer
  pub version : IsBuffer 8 e.version
  pub last_seen : e.last_seen < 2 ^ 32
  pub media_index : IsByte e.media_index
  pub sync_quality : IsByte e.sync_quality
  pub sync_gaps : e.sync_gaps < 2 ^ 16

get_or-IsByte : (xs : List ℕ) (k : ℕ) → All IsByte xs → IsByte (get_or xs k 0)
get_or-IsByte [] k h = omega arith
get_or-IsByte (x ∷ xs) zero h = h.0
get_or-IsByte (x ∷ xs) (suc k) h = get_or-IsByte xs k h.1

strncpy-IsByte : (n : ℕ) (s : List ℕ) → All IsByte s → All IsByte (strncpy n s)
unfolding strncpy
strncpy-IsByte zero s h = tt
strncpy-IsByte (suc n) [] h = (omega arith, strncpy-IsByte n [] tt)
strncpy-IsByte (suc n) (c ∷ s) h =
    (h.0, strncpy-IsByte n _ (if_both (All IsByte) (c == 0) [] s tt h.1))

length-take_less : (n : ℕ) (xs : List ℕ) → n ≤ length xs → length (take n xs) ≡ n
length-take_less zero xs h = refl
length-take_less (suc n) [] h = absurd (omega arith)
length-take_less (suc n) (x ∷ xs) h = ap suc (length-take_less n xs (omega (arith, h)))

-- `strncpy` into a buffer, and the NUL in its last byte.
pub length-buffer : (k : ℕ) (s : List ℕ) → length (take k (strncpy (suc k) s) ++ 0 ∷ []) ≡ suc k
length-buffer k s = omega (
  arith,
  length-append (take k (strncpy (suc k) s)) (0 ∷ []),
  length-take_less k (strncpy (suc k) s) (omega (arith, length-strncpy (suc k) s)),
)

buffer-IsBuffer :
    (k : ℕ) (s : List ℕ) → All IsByte s → IsBuffer (suc k) (take k (strncpy (suc k) s) ++ 0 ∷ [])
buffer-IsBuffer k s h = (
  length-buffer k s,
  All-append IsByte (take k (strncpy (suc k) s)) (0 ∷ [])
      (All-take k (strncpy (suc k) s) (strncpy-IsByte (suc k) s h)) (omega arith),
)

pub layer_buffer-IsBuffer : (s : List ℕ) → All IsByte s → IsBuffer 16 (layer_buffer s)
layer_buffer-IsBuffer s h = buffer-IsBuffer 15 s h

-- A table of `k` entries that all fit.
abbrev pub TableFits : {A : Type 0} → (A → Type 0) → ℕ → List A → Type 0
TableFits P k t = (length t ≡ k) × All P t

module _ (now : ℕ) (src : Mac) (k : ℕ) (late : now < 2 ^ 32) (m : MacFits src) where
  seen_sender-Fits :
      (t : List SenderEntry) (s : Slot)
      → TableFits SenderFits k t
      → TableFits SenderFits k ((seen_sender now src t s).0)
  unfolding seen_sender
  seen_sender-Fits t (found i) (l, h) = (
    length-update (λ e. record e { last_seen = now }) t i ∙ l,
    All-update SenderFits (λ e. record e { last_seen = now }) t i
        (λ a f. record { mac = f.mac; last_seen = late }) h,
  )
  seen_sender-Fits t (free i) (l, h) =
      let e : SenderEntry = record { mac = src; last_seen = now; active = true } in
      (length-set t i e ∙ l, All-set SenderFits t i e h (record { mac = m; last_seen = late }))
  seen_sender-Fits t full (l, h) = (l, h)

  pub handle_sender_beacon-Fits :
      (t : List SenderEntry)
      → TableFits SenderFits k t
      → TableFits SenderFits k ((handle_sender_beacon now src t).0)
  unfolding handle_sender_beacon
  handle_sender_beacon-Fits t h =
      seen_sender-Fits t (find_slot (is_sender src) (λ e. not e.active) t 0 none) h

  module _ (bytes : List ℕ) (b : All IsByte bytes) where
    heard_layer : IsBuffer 16 (layer_buffer (take 16 (drop 1 bytes)))
    heard_layer =
        layer_buffer-IsBuffer (take 16 (drop 1 bytes)) (All-take 16 _ (All-drop 1 bytes b))

    quality-IsByte : IsByte (reported_quality (length bytes) (receiver_info bytes))
    unfolding receiver_info
    quality-IsByte =
        if_both IsByte (leb receiver_info_quality_len (length bytes)) _ _ (get_or-IsByte bytes 26 b)
          (omega arith)

    gaps-IsWord : reported_gaps (length bytes) (receiver_info bytes) < 2 ^ 16
    unfolding receiver_info
    gaps-IsWord =
        if_both (λ g. g < 65536) (leb receiver_info_len (length bytes)) _ _
          (omega (arith, get_or-IsByte bytes 27 b, get_or-IsByte bytes 28 b)) (omega arith)

    refresh_receiver-Fits :
        (a : ReceiverEntry)
        → ReceiverFits a
        → ReceiverFits (refresh_receiver now (length bytes) (receiver_info bytes) a)
    unfolding refresh_receiver receiver_info
    refresh_receiver-Fits a f = record {
      mac = f.mac;
      layer =
          if_both (IsBuffer 16) (strn_eq max_layer_length a.layer (take 16 (drop 1 bytes))) _ _
            f.layer heard_layer;
      version = f.version;
      last_seen = late;
      media_index = get_or-IsByte bytes 25 b;
      sync_quality = quality-IsByte;
      sync_gaps = gaps-IsWord;
    }

    new_receiver-Fits : ReceiverFits (new_receiver now (length bytes) src (receiver_info bytes))
    unfolding new_receiver receiver_info
    new_receiver-Fits = record {
      mac = m;
      layer = heard_layer;
      version = buffer-IsBuffer 7 (take 8 (drop 17 bytes)) (All-take 8 _ (All-drop 17 bytes b));
      last_seen = late;
      media_index = get_or-IsByte bytes 25 b;
      sync_quality = quality-IsByte;
      sync_gaps = gaps-IsWord;
    }

    seen_receiver-Fits :
        (t : List ReceiverEntry) (s : Slot)
        → TableFits ReceiverFits k t
        → TableFits ReceiverFits k
            ((seen_receiver now (length bytes) src (receiver_info bytes) t s).0)
    unfolding seen_receiver
    seen_receiver-Fits t (found i) (l, h) =
        let refreshed = refresh_receiver now (length bytes) (receiver_info bytes) in
        (
          length-update refreshed t i ∙ l,
          All-update ReceiverFits refreshed t i refresh_receiver-Fits h,
        )
    seen_receiver-Fits t (free i) (l, h) =
        let e = new_receiver now (length bytes) src (receiver_info bytes) in
        (length-set t i e ∙ l, All-set ReceiverFits t i e h new_receiver-Fits)
    seen_receiver-Fits t full (l, h) = (l, h)

    pub handle_receiver_info-Fits :
        (t : List ReceiverEntry)
        → TableFits ReceiverFits k t
        → TableFits ReceiverFits k ((handle_receiver_info now src bytes t).0)
    unfolding handle_receiver_info
    handle_receiver_info-Fits t h =
        if_both {A = List ReceiverEntry × List Effect} (λ v. TableFits ReceiverFits k (v.0))
          (ltb (length bytes) receiver_info_min_len) _ _ h
          (seen_receiver-Fits t (find_slot (is_receiver src) (λ e. not e.active) t 0 none) h)

pub cleanup_sender_table-Fits :
    (now k : ℕ) (t : List SenderEntry)
    → TableFits SenderFits k t
    → TableFits SenderFits k ((cleanup_sender_table now t).0)
unfolding cleanup_sender_table
cleanup_sender_table-Fits now k [] h = h
cleanup_sender_table-Fits now zero (e ∷ t) h = absurd (omega (arith, h.0))
cleanup_sender_table-Fits now (suc k) (e ∷ t) (l, h) =
    let (l', h') = cleanup_sender_table-Fits now k t (omega (arith, l), h.1) in
    if_both {A = List SenderEntry × List Effect} (λ v. TableFits SenderFits (suc k) (v.0))
      (e.active && ltb sender_timeout_ms (sub32 now e.last_seen)) _ _
      (ap suc l', (record { mac = h.0.mac; last_seen = h.0.last_seen }, h')) (ap suc l', (h.0, h'))

age_receiver-Fits :
    (now : ℕ) (e : ReceiverEntry) → ReceiverFits e → ReceiverFits (age_receiver now e)
unfolding age_receiver
age_receiver-Fits now e f =
    let aged : (active connected : Bool)
        → ReceiverFits (record e { active = active; connected = connected }) =
      λ active connected. record {
        mac = f.mac;
        layer = f.layer;
        version = f.version;
        last_seen = f.last_seen;
        media_index = f.media_index;
        sync_quality = f.sync_quality;
        sync_gaps = f.sync_gaps;
      } in
    if_both ReceiverFits (not e.active) _ _ f (
      if_both ReceiverFits (ltb 10000 (sub32 now e.last_seen)) _ _ (aged false false) (
        if_both ReceiverFits (ltb receiver_timeout_ms (sub32 now e.last_seen)) _ _
          (aged e.active false) f))

pub cleanup_receiver_table-Fits :
    (now k : ℕ) (t : List ReceiverEntry)
    → TableFits ReceiverFits k t
    → TableFits ReceiverFits k ((cleanup_receiver_table now t).0)
unfolding cleanup_receiver_table
cleanup_receiver_table-Fits now k [] h = h
cleanup_receiver_table-Fits now zero (e ∷ t) h = absurd (omega (arith, h.0))
cleanup_receiver_table-Fits now (suc k) (e ∷ t) (l, h) =
    let (l', h') = cleanup_receiver_table-Fits now k t (omega (arith, l), h.1) in
    (ap suc l', (age_receiver-Fits now e h.0, h'))
