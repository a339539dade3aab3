-- ===== src/Life/Status.antt =====
-- What a host reads of the slaves, at any time of a node's life.
use nowde.Prelude.{
  ℕ, suc, ◌≤◌, ◌≡◌, Bool, ◌&&◌, List, [], ◌∷◌, map, length, All, All-append, if_both, arith,
}
use nowde.Codec.RoundTrip.{IsByte}
use nowde.Usb.{fresh_reader, read_packets}
use nowde.Wire.{mac_bytes}
use nowde.Tables.{ReceiverEntry}
use nowde.Tables.Fits.{ReceiverFits}
use nowde.Node.{Node, World}
use nowde.Replies.{frame, receiver_data, running_state_bodies, snapshot}
use nowde.Replies.Slaves.{HoldsBytes, slave_of, told}
use nowde.Replies.Chunks.{state_packets, IsSized, running_state_arrives}
use nowde.Boot.{Store, Build}
use nowde.Life.{Event, power_up, live_all}
use nowde.Life.Runs.{HearsOnly}
use nowde.Life.Fits.{IsFrame, NodeFits, life-NodeFits}

-- What fits is what RUNNING_STATE can tell.
ReceiverFits-HoldsBytes : (now : ℕ) (e : ReceiverEntry) → ReceiverFits e → HoldsBytes now e
unfolding receiver_data
ReceiverFits-HoldsBytes now e f = All-append IsByte (mac_bytes e.mac) _ f.mac (
    All-append IsByte e.layer _ f.layer.1
      (All-append IsByte e.version _ f.version.1 (omega (arith, f.media_index, f.sync_quality))))

snapshot-Fits :
    (t : List ReceiverEntry)
    → All ReceiverFits t
    → All ReceiverFits (snapshot t) × (length (snapshot t) ≤ length t)
unfolding snapshot
snapshot-Fits [] h = (tt, omega arith)
snapshot-Fits (e ∷ t) h =
    let (rest, l) = snapshot-Fits t h.1 in
    if_both (λ s. All ReceiverFits s × (length s ≤ suc (length t))) (e.active && e.connected) _ _
      ((h.0, rest), omega (arith, l)) (rest, omega (arith, l))

All-map {ℓ κ} :
    {A : Type ℓ} (P Q : A → Type κ) (t : List A) → ((a : A) → P a → Q a) → All P t → All Q t
All-map P Q [] k h = tt
All-map P Q (a ∷ t) k h = (k a h.0, All-map P Q t k h.1)

-- Of a node whose tables fit.
pub fits_status :
    (w' : World) (n : Node)
    → NodeFits n
    → let bodies = running_state_bodies w' n.receivers in
      (read_packets fresh_reader (state_packets bodies) ≡ (fresh_reader, map (frame 0x22) bodies))
      × (map slave_of bodies ≡ told w'.now (snapshot n.receivers))
fits_status w' n f =
    let (l, fits) = f.receivers in
    let (listed, few) = snapshot-Fits n.receivers fits in
    running_state_arrives w' n.receivers (omega (arith, l, few))
      (All-map ReceiverFits IsSized (snapshot n.receivers) (λ e f. (f.layer.0, f.version.0)) listed)
      (All-map ReceiverFits (HoldsBytes w'.now) (snapshot n.receivers)
        (ReceiverFits-HoldsBytes w'.now) listed)

-- At any time of a node's life, as long as what it hears on the mesh are bytes, from addresses of
-- bytes, at 32-bit times, and at whatever time the host asks: the packets of RUNNING_STATE, read as
-- `midiProcess` reads, give one frame for each chunk, whole and in order, and nothing else; from the
-- chunks a host reads every connected slave of the table once, in the order of the table; with none
-- connected, there is one chunk, which lists no slave.
pub life_status :
    (w w' : World) (b : Build) (board : ℕ) (has_display : Bool) (s : Store) (es : List Event)
    → All (HearsOnly IsFrame) es
    → let n = (live_all es (power_up w b board has_display s)).tasks.node in
      let bodies = running_state_bodies w' n.receivers in
      (read_packets fresh_reader (state_packets bodies) ≡ (fresh_reader, map (frame 0x22) bodies))
      × (map slave_of bodies ≡ told w'.now (snapshot n.receivers))
life_status w w' b board has_display s es h =
    fits_status w' (live_all es (power_up w b board has_display s)).tasks.node
      (life-NodeFits w b board has_display s es h)
