-- ===== src/Panel/Colour.antt =====
-- What the colour of a node tells.
use nowde.Prelude.{
  ℕ, ◌≤◌, ◌<◌, ◌≡◌, ◌≢◌, ◌⊎◌, inl, inr, Bool, true, false, ◌&&◌, not, List, [], ◌∷◌, All, arith,
  ltb, ◌==◌, if_cases,
}
use nowde.Config.{role_master, sync_locked}
use nowde.Sync.{host_linked, master_relay_playing, node_sync_quality}
use nowde.Tables.{
  ReceiverEntry, count_active_senders, count_active_receivers, count_connected_receivers,
  count_locked_receivers,
}
use nowde.Node.{Node}
use nowde.Panel.{
  SyncState, alone, synced, lost, Rgb, rgb, master_colour, slave_colour, status_color,
}

abbrev pub green : Rgb
green = rgb 0 70 0

-- A slave that is present and not locked.
abbrev pub lags : ReceiverEntry → Bool
lags e = (e.active && e.connected) && not (e.sync_quality == sync_locked)

locked-le : (t : List ReceiverEntry) → count_locked_receivers t ≤ count_connected_receivers t
unfolding count_locked_receivers count_connected_receivers
locked-le [] = omega arith
locked-le (e ∷ t) = ground (arith, locked-le t)

-- What the display counts are never more than there are.
pub connected-le : (t : List ReceiverEntry) → count_connected_receivers t ≤ count_active_receivers t
unfolding count_connected_receivers count_active_receivers
connected-le [] = omega arith
connected-le (e ∷ t) = ground (arith, connected-le t)

none_lags :
    (t : List ReceiverEntry)
    → ltb (count_locked_receivers t) (count_connected_receivers t) ≡ false
    → All (λ e. lags e ≡ false) t
unfolding count_locked_receivers count_connected_receivers
none_lags [] h = tt
none_lags (e ∷ t) h = let k = locked-le t in (ground arith, none_lags t (ground arith))

-- What a green master, and another green node, stand for.
abbrev pub Drives : ℕ → ℕ → Node → Type 0
Drives now last n =
    (n.role ≡ role_master)
    × (host_linked now last ≡ true)
    × (master_relay_playing now n.master_relay ≡ true)
    × (0 < count_connected_receivers n.receivers)
    × All (λ e. lags e ≡ false) n.receivers

abbrev pub Plays : SyncState → Node → Type 0
Plays sync n =
    (n.role ≢ role_master)
    × (n.follower.sync.current_state ≡ 1)
    × (n.follower.sync.link_lost ≡ false)
    × (n.follower.sync.coarse ≡ false)
    × (sync ≡ synced)
    × (0 < count_active_senders n.senders)

master_green :
    (now last : ℕ) (n : Node)
    → n.role ≡ role_master
    → (master_colour now last n).0 ≡ green
    → Drives now last n
unfolding master_colour
master_green now last n r h = let k = none_lags n.receivers in ground arith

slave_green :
    (sync : SyncState) (n : Node)
    → n.role ≢ role_master
    → (slave_colour sync n).0 ≡ green
    → Plays sync n
unfolding slave_colour
slave_green alone n r h = ground arith
slave_green lost n r h = ground arith
slave_green synced n r h = ground arith

-- Green is a promise. Outside an update, a green master has its host, relays a playing medium, and has
-- slaves, of which every one that is present reports itself locked; any other green node plays, has
-- not lost its link, is not coarse, has a synced mesh clock and hears a master.
pub status_color-green :
    (now last : ℕ) (sync : SyncState) (n : Node)
    → (status_color now last sync n).0 ≡ green
    → (n.ota.in_progress ≡ false) × (Drives now last n ⊎ Plays sync n)
unfolding status_color
status_color-green now last sync n =
    let result : Type 0 = (n.ota.in_progress ≡ false) × (Drives now last n ⊎ Plays sync n) in
    let P : Rgb × Bool → Type 0 = λ c. c.0 ≡ green → result in
    if_cases P n.ota.in_progress _ _ (λ e h. absurd (ground arith))
      λ running.
        if_cases P (n.role == role_master) _ _
          (λ e h. (running, inl (master_green now last n (ground arith) h)))
          λ e h. (running, inr (slave_green sync n (ground arith) h))

-- A node that is not a master, is not in an update and hears one, and that counts itself locked while
-- its mesh clock is synced, is green.
pub quality-green :
    (now last : ℕ) (n : Node)
    → n.role ≢ role_master
    → n.ota.in_progress ≡ false
    → 0 < count_active_senders n.senders
    → node_sync_quality n.role now true n.follower.sync ≡ sync_locked
    → status_color now last synced n ≡ (green, false)
unfolding status_color slave_colour node_sync_quality
quality-green now last n r o s q = ground arith
