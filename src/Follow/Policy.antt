-- ===== src/Follow/Policy.antt =====
-- Following a packet leaves the policy for a lost link as it is.
use nowde.Prelude.{ℕ, ◌≡◌, ◌∙◌, Bool, List, [], if◌then◌else◌, arith, length}
use nowde.Wire.{Mac, MediaSyncPacket, media_sync_packet}
use nowde.Sync.{MediaSyncState, Follower, origin_accepts}
use nowde.Follow.{
  count_gap, follow_packet, process_media_sync_packet, send_index, send_volume, send_transition,
  update_sync, carries_volume,
}

-- Two states with the same policy.
abbrev SamePolicy : MediaSyncState → MediaSyncState → Type 0
SamePolicy a b = a.stop_on_link_lost ≡ b.stop_on_link_lost

send_index-SamePolicy :
    (now : ℕ) (p : MediaSyncPacket) (s : MediaSyncState) → SamePolicy (send_index now p s).0 s
unfolding send_index
send_index-SamePolicy now p s = ground arith

send_volume-SamePolicy :
    (now v : ℕ) (b : Bool) (s : MediaSyncState)
    → SamePolicy (if b then send_volume now v s else (s, [])).0 s
unfolding send_volume
send_volume-SamePolicy now v b s = ground arith

send_transition-SamePolicy :
    (now position : ℕ) (a b : Bool) (s : MediaSyncState)
    → SamePolicy (send_transition now position a b s).0 s
unfolding send_transition
send_transition-SamePolicy now position a b s = ground arith

count_gap-SamePolicy : (len seq : ℕ) (s : MediaSyncState) → SamePolicy (count_gap len seq s) s
unfolding count_gap
count_gap-SamePolicy len seq s = ground arith

origin_accepts-SamePolicy :
    (now : ℕ) (origin : Mac) (f : Follower) → SamePolicy (origin_accepts now origin f).0.sync f.sync
unfolding origin_accepts
origin_accepts-SamePolicy now origin f = ground arith

follow_packet-SamePolicy :
    (now mesh_now len : ℕ) (p : MediaSyncPacket) (s : MediaSyncState)
    → SamePolicy (follow_packet now mesh_now len p s).0 s
unfolding follow_packet update_sync
follow_packet-SamePolicy now mesh_now len p s =
    send_transition-SamePolicy now _ _ _ _
    ∙ (send_volume-SamePolicy now p.volume (carries_volume len p) _ ∙ send_index-SamePolicy now p _)

pub process_media_sync_packet-SamePolicy :
    (now mesh_now : ℕ) (subscribed : List ℕ) (origin : Mac) (bytes : List ℕ) (f : Follower)
    → SamePolicy (process_media_sync_packet now mesh_now subscribed origin bytes f).0.sync f.sync
unfolding process_media_sync_packet
process_media_sync_packet-SamePolicy now mesh_now subscribed origin bytes f =
    let len = length bytes in
    let p = media_sync_packet bytes in
    let g = (origin_accepts now origin f).0 in
    let accepted = origin_accepts-SamePolicy now origin f in
    let followed =
      follow_packet-SamePolicy now mesh_now len p (count_gap len p.seq g.sync)
      ∙ (count_gap-SamePolicy len p.seq g.sync ∙ accepted) in
    ground (arith, accepted, followed)
