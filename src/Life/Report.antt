-- ===== src/Life/Report.antt =====
-- What a slave reports of itself, on its way over its master to the master's host.
use mathlib.Core.Option.{some-injective}
use nowde.Prelude.{
  ℕ, zero, suc, ◌+◌, ◌^◌, ◌<◌, ◌≤◌, ◌≡◌, ap, sym, ◌∙◌, Bool, true, false, ◌&&◌, some, List, [], ◌∷◌,
  ◌++◌, All, map, get_elem?-map, get_elem?, strnlen, ◌==◌, if◌then◌else◌, if_both, if_cases, u32,
  sub32, arith,
}
use nowde.Codec.RoundTrip.{IsByte}
use nowde.Usb.{fresh_reader, read_packets}
use nowde.Wire.{Mac, ReceiverInfo, receiver_info_bytes}
use nowde.Wire.RoundTrip.{ReceiverInfoIsValid}
use nowde.Effects.{esp_now_send, usb}
use nowde.Tables.{SenderEntry, ReceiverEntry, handle_receiver_info}
use nowde.Tables.Fits.{MacFits, length-buffer}
use nowde.Tables.Reported.{Says, HasRoomFor, handle_receiver_info-Says}
use nowde.Node.{Node, World}
use nowde.Config.{version, receiver_timeout_ms}
use nowde.Replies.{
  frame, receiver_data, running_state_bodies, snapshot, chunk_packets, send_hello,
  send_running_state,
}
use nowde.Replies.Slaves.{slave_of, told}
use nowde.Replies.Chunks.{state_packets}
use nowde.Commands.{report_of, send_receiver_info, query_running_state}
use nowde.Receive.{on_data_recv}
use nowde.Task.{Tasks}
use nowde.Life.Fits.{NodeFits, on_data_recv-NodeFits}
use nowde.Life.Status.{fits_status}
use nowde.Life.Sends.{masters, inform_lem, inform-get_elem?, send_receiver_info_lem}
use nowde.Life.Turns.{run_turns, Holds, run_turns-Holds}

abbrev is_listed : ReceiverEntry → Bool
is_listed e = e.active && e.connected

-- Of a connected entry of the table, the snapshot has a copy.
snapshot-get_elem? :
    (t : List ReceiverEntry) (k : ℕ) (e : ReceiverEntry)
    → get_elem? t k ≡ some e
    → e.active ≡ true
    → e.connected ≡ true
    → (j : ℕ) × (get_elem? (snapshot t) j ≡ some e)
unfolding snapshot
snapshot-get_elem? [] k e g a c = absurd (cc)
snapshot-get_elem? (x ∷ t) zero e g a c =
    if_cases (λ s. (j : ℕ) × (get_elem? s j ≡ some e)) (x.active && x.connected) _ _ (λ _. (0, g))
      λ off. absurd (cc (ap is_listed (some-injective x e g), off, a, c))
snapshot-get_elem? (x ∷ t) (suc k) e g a c =
    let (j, at) = snapshot-get_elem? t k e g a c in
    if_both (λ s. (j : ℕ) × (get_elem? s j ≡ some e)) (x.active && x.connected) _ _ (suc j, at)
      (j, at)

told-get_elem? :
    (now : ℕ) (t : List ReceiverEntry) (j : ℕ) (e : ReceiverEntry)
    → get_elem? t j ≡ some e
    → get_elem? (told now t) j ≡ some (receiver_data now e)
told-get_elem? now [] j e g = absurd (cc)
told-get_elem? now (x ∷ t) j e g = get_elem?-map (receiver_data now) (x ∷ t) j e g

report_of-IsValid :
    (w : World) (n : Node)
    → n.follower.sync.sync_gaps < 2 ^ 16
    → ReceiverInfoIsValid (report_of w n)
report_of-IsValid w n g = record {
  layer = length-buffer 15 n.subscribed_layer;
  version = length-buffer 7 version;
  gaps = g;
}

-- A master in sender mode hands the frame to its table, and no more.
heard_lem :
    (w : World) (src : Mac) (i : ReceiverInfo) (m : Node)
    → m.sender_mode ≡ true
    → (on_data_recv w false src (receiver_info_bytes i) m).0 ≡ record m {
      receivers = (handle_receiver_info w.now src (receiver_info_bytes i) m.receivers).0;
    }
unfolding on_data_recv receiver_info_bytes
heard_lem w src i m s = ground arith

-- A node that resumes with a host answers 20 ms after its HELLO.
abbrev pub answers_at : World → Node → World
answers_at u n = record u { now = if n.host_resumed then u32 (u.now + 20) else u.now }

-- The answer of a node in sender mode, not before 500 ms after the one before.
asked_lem :
    (u : World) (n : Node)
    → n.sender_mode ≡ true
    → 500 ≤ sub32 (answers_at u n).now n.last_running_state
    → (query_running_state u n).1
      ≡ (if n.host_resumed then send_hello u (record n { host_resumed = false }) ∷ [] else [])
        ++ map
            (λ body. usb (chunk_packets body))
            (running_state_bodies (answers_at u n) n.receivers)
unfolding query_running_state send_running_state
asked_lem u n mode ready = ground arith

-- What a host reads in the answer of a node that holds an entry that says what was reported.
answered_lem :
    (u : World) (m n : Node) (heard : ℕ) (src : Mac) (i : ReceiverInfo) (k : ℕ) (e : ReceiverEntry)
    → Says heard src i e
    → Holds m k e n
    → m.sender_mode ≡ true
    → 500 ≤ sub32 (answers_at u m).now m.last_running_state
    → let later = answers_at u n in
      let bodies = running_state_bodies later n.receivers in
      ((query_running_state u n).1
        ≡ (if n.host_resumed then send_hello u (record n { host_resumed = false }) ∷ [] else [])
          ++ map (λ body. usb (chunk_packets body)) bodies)
      × (read_packets fresh_reader (state_packets bodies) ≡ (fresh_reader, map (frame 0x22) bodies))
      × ((j : ℕ) × (get_elem? (map slave_of bodies) j ≡ some (receiver_data later.now e)))
answered_lem u m n heard src i k e says h mode ready =
    let (j, listed) = snapshot-get_elem? n.receivers k e h.there says.active says.connected in
    let (read, slaves) = fits_status (answers_at u n) n h.fits in
    let when : (answers_at u m).now ≡ (answers_at u n).now =
      ap (λ r. if r then u32 (u.now + 20) else u.now) (sym h.resumed) in
    let open_now : 500 ≤ sub32 (answers_at u n).now n.last_running_state =
      rw (sym when, h.answered) ready in
    (
      asked_lem u n (h.mode ∙ mode) open_now,
      read,
      (
        j,
        ap (λ t. get_elem? t j) slaves
            ∙ told-get_elem? (answers_at u n).now (snapshot n.receivers) j e listed,
      ),
    )

-- A slave with a layer reports itself in one frame, which it sends to each active master of its table,
-- and to nobody else; a master that it lists is among them. If that master is in sender mode, knows the
-- slave or has a free entry, and hears the frame (bytes in all fields, an address of bytes, a 32-bit
-- time, a table that fits its types), then through any number of turns of its ESP-NOW task, the cleaning
-- of the tables included, each at most 5 s after the frame, the slave stays on record: a
-- QUERY_RUNNING_STATE that comes then, 500 ms or more after the last answer of the master, is answered at
-- once, by a HELLO first where the node resumes with its host; the answer reads back whole; and one of
-- the slaves in it is this one, with its address, connected, with the medium, the sync quality and the
-- count of missed frames that it reported.
pub report_reaches_host :
    (v w u : World) (src : Mac) (s m : Node) (a : SenderEntry) (l : ℕ) (us : List World) (t : Tasks)
    → s.receiver_mode ≡ true
    → (strnlen s.subscribed_layer 15 == 0) ≡ false
    → get_elem? s.senders l ≡ some a
    → a.active ≡ true
    → a.mac ≡ w.my_mac
    → s.follower.sync.sync_gaps < 2 ^ 16
    → All IsByte (receiver_info_bytes (report_of v s))
    → w.now < 2 ^ 32
    → MacFits src
    → m.sender_mode ≡ true
    → NodeFits m
    → HasRoomFor src m.receivers
    → All (λ turn. sub32 turn.now w.now ≤ receiver_timeout_ms) us
    → 500 ≤ sub32 (answers_at u m).now m.last_running_state
    → let bytes = receiver_info_bytes (report_of v s) in
      let after = (on_data_recv w false src bytes m).0 in
      let n = (run_turns us (record t { node = after })).node in
      let later = answers_at u n in
      let bodies = running_state_bodies later n.receivers in
      (send_receiver_info v s ≡ map (λ to. esp_now_send to bytes) (masters s.senders))
      × ((k : ℕ) × (get_elem? (send_receiver_info v s) k ≡ some (esp_now_send w.my_mac bytes)))
      × ((query_running_state u n).1
          ≡ (if n.host_resumed then send_hello u (record n { host_resumed = false }) ∷ [] else [])
            ++ map (λ body. usb (chunk_packets body)) bodies)
      × (read_packets fresh_reader (state_packets bodies) ≡ (fresh_reader, map (frame 0x22) bodies))
      × ((j : ℕ) × (e : ReceiverEntry) × (get_elem? (map slave_of bodies) j
            ≡ some (receiver_data later.now e))
          × Says w.now src (report_of v s) e)
report_reaches_host v w u src s m a l us t slave named at on mine g b late mac mode fits room soon
      ready =
    let i = report_of v s in
    let bytes = receiver_info_bytes i in
    let after = (on_data_recv w false src bytes m).0 in
    let (k, e, there, says) =
      handle_receiver_info-Says w.now src i m.receivers (report_of-IsValid v s g) room in
    let same = heard_lem w src i m mode in
    let holds : Holds m k e after = record {
      there = ap (λ n. get_elem? n.receivers k) same ∙ there;
      mode = ap (λ n. n.sender_mode) same;
      resumed = ap (λ n. n.host_resumed) same;
      answered = ap (λ n. n.last_running_state) same;
      fits = on_data_recv-NodeFits w false src bytes m (late, mac, b) fits;
    } in
    let n = (run_turns us (record t { node = after })).node in
    let kept = run_turns-Holds us (record t { node = after }) m w.now src i k e soon says holds in
    let sends = send_receiver_info_lem v s slave named in
    let (place, sent) = inform-get_elem? bytes s.senders l a at on in
    let (answer, read, (j, listed)) = answered_lem u m n w.now src i k e says kept mode ready in
    (
      sends ∙ inform_lem bytes s.senders,
      (
        place,
        ap (λ es. get_elem? es place) sends ∙ (sent ∙ ap (λ to. some (esp_now_send to bytes)) mine),
      ),
      answer,
      read,
      (j, e, listed, says),
    )
