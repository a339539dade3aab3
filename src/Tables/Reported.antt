-- ===== src/Tables/Reported.antt =====
-- What a RECEIVER_INFO frame leaves in the table of a master.
use mathlib.Core.Option.{some-injective}
use nowde.Prelude.{
  ℕ, zero, suc, [], ◌∷◌, ◌≤◌, sub32, ◌≡◌, ◌≢◌, refl, ap, ◌∙◌, inl, inr, true, not, none, some, List,
  update-get_elem?, get_elem?-set_here, get_elem?, arith,
}
use nowde.Wire.{Mac, mac_equal, ReceiverInfo, receiver_info_bytes}
use nowde.Wire.RoundTrip.{mac_equal_refl, ReceiverInfoIsValid, receiver_info-receiver_info_bytes}
use nowde.Slots.{full, find_slot, find_slot-cases}
use nowde.Config.{receiver_timeout_ms}
use nowde.Tables.{
  cleanup_receiver_table, age_receiver, ReceiverEntry, is_receiver, handle_receiver_info,
  seen_receiver, refresh_receiver, new_receiver,
}

-- An entry that says of `src` what was reported.
pub record Says (now : ℕ) (src : Mac) (i : ReceiverInfo) (e : ReceiverEntry) : Type 0 where
  pub mac : mac_equal e.mac src ≡ true
  pub active : e.active ≡ true
  pub connected : e.connected ≡ true
  pub heard : e.last_seen ≡ now
  pub index : e.media_index ≡ i.media_index
  pub quality_told : e.sync_quality ≡ i.sync_quality
  pub gaps : e.sync_gaps ≡ i.sync_gaps

-- A table that knows the slave, or has a free entry.
abbrev pub HasRoomFor : Mac → List ReceiverEntry → Type 0
HasRoomFor src t = find_slot (is_receiver src) (λ e. not e.active) t 0 none ≢ full

seen-Says :
    (now : ℕ) (src : Mac) (i : ReceiverInfo) (t : List ReceiverEntry)
    → HasRoomFor src t
    → let s = find_slot (is_receiver src) (λ e. not e.active) t 0 none in
      (k : ℕ) × (e : ReceiverEntry) × (get_elem? (seen_receiver now 29 src i t s).0 k ≡ some e)
      × Says now src i e
unfolding seen_receiver refresh_receiver new_receiver
seen-Says now src i t room = elim (find_slot-cases (is_receiver src) (λ e. not e.active) t) [
  | inl (k, a, at, g, fits, _) ↦ rw at (
    k,
    refresh_receiver now 29 i a,
    ap (λ u. get_elem? u k) (update-get_elem? (refresh_receiver now 29 i) t k a g)
        ∙ get_elem?-set_here t k a (refresh_receiver now 29 i a) g,
    record {
      mac = ground arith;
      active = ground arith;
      connected = refl;
      heard = refl;
      index = refl;
      quality_told = refl;
      gaps = refl;
    },
  )
  | inr (inl (k, a, at, g, _, _)) ↦ rw at (
    k,
    new_receiver now 29 src i,
    get_elem?-set_here t k a (new_receiver now 29 src i) g,
    record {
      mac = mac_equal_refl src;
      active = refl;
      connected = refl;
      heard = refl;
      index = refl;
      quality_told = refl;
      gaps = refl;
    },
  )
  | inr (inr (at, _)) ↦ absurd (room at)
]

-- A frame of the full size.
pub handle_receiver_info-Says :
    (now : ℕ) (src : Mac) (i : ReceiverInfo) (t : List ReceiverEntry)
    → ReceiverInfoIsValid i
    → HasRoomFor src t
    → (k : ℕ) × (e : ReceiverEntry) × (get_elem?
          (handle_receiver_info now src (receiver_info_bytes i) t).0
          k
        ≡ some e)
      × Says now src i e
unfolding handle_receiver_info
handle_receiver_info-Says now src i t v room =
    let (same, size) = receiver_info-receiver_info_bytes i v in
    rw (size, same) (seen-Says now src i t room)

-- A cleanup within 5 s leaves the entry as it is.
pub cleanup_receiver_table-Says :
    (now heard : ℕ) (src : Mac) (i : ReceiverInfo) (t : List ReceiverEntry) (k : ℕ)
    (e : ReceiverEntry)
    → sub32 now heard ≤ receiver_timeout_ms
    → Says heard src i e
    → get_elem? t k ≡ some e
    → get_elem? (cleanup_receiver_table now t).0 k ≡ some e
unfolding cleanup_receiver_table age_receiver
cleanup_receiver_table-Says now heard src i [] k e h s g = absurd (cc)
cleanup_receiver_table-Says now heard src i (x ∷ t) zero e h s g =
    let a = s.heard in
    let same : age_receiver now e ≡ e = ground arith in
    ap (λ y. some (age_receiver now y)) (some-injective x e g) ∙ ap some same
cleanup_receiver_table-Says now heard src i (x ∷ t) (suc k) e h s g =
    cleanup_receiver_table-Says now heard src i t k e h s g
