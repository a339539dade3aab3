-- ===== src/Receive/Cases.antt =====
-- What holds of each handler's result holds of what `onDataRecv` leaves.
use nowde.Prelude.{ℕ, Bool, List, [], length, get_or, ltb, ◌==◌, if_both, u8}
use nowde.Usb.{sysex_start}
use nowde.Wire.{Mac, msg_sender_beacon, msg_receiver_info, msg_media_sync, msg_mesh_relay}
use nowde.Effects.{Effect}
use nowde.Tables.{handle_sender_beacon, handle_receiver_info}
use nowde.Node.{Node, World}
use nowde.Sysex.{handle_sysex_message}
use nowde.Receive.{on_media_sync, on_mesh_relay, on_data_recv}

-- A handler leaves a node with `P`.
record Leaves (P : Node → Type 0) (v : Node × List Effect) : Type 0 where
  holds : P (v.0)

module _ (P : Node → Type 0) (w : World) (mesh_handled : Bool) (src : Mac) (bytes : List ℕ)
    (n : Node) (same : P n) (sysex : P ((handle_sysex_message w (u8 (length bytes)) bytes n).0))
    (heard : P (record n { senders = (handle_sender_beacon w.now src n.senders).0 }))
    (reported : P (record n { receivers = (handle_receiver_info w.now src bytes n.receivers).0 }))
    (direct : P ((on_media_sync w src bytes n).0)) (relayed : P ((on_mesh_relay w bytes n).0)) where
  on_data_recv-Leaves : Leaves P (on_data_recv w mesh_handled src bytes n)
  unfolding on_data_recv
  on_data_recv-Leaves =
      let kind = get_or bytes 0 0 in
      let stays : Leaves P (n, []) = record { holds = same } in
      if_both (Leaves P) (ltb (length bytes) 1) (n, []) _ stays
        (if_both (Leaves P) mesh_handled (n, []) _ stays
          (if_both (Leaves P) (kind == sysex_start) _ _ (record { holds = sysex })
            (if_both (Leaves P) (kind == msg_sender_beacon) _ _ (record { holds = heard })
              (if_both (Leaves P) (kind == msg_receiver_info) _ _
                (if_both (Leaves P) n.sender_mode _ (n, []) (record { holds = reported }) stays)
                (if_both (Leaves P) (kind == msg_media_sync) _ _ (record { holds = direct })
                  (if_both (Leaves P) (kind == msg_mesh_relay) _ (n, [])
                    (record { holds = relayed }) stays))))))

  pub on_data_recv-cases : P ((on_data_recv w mesh_handled src bytes n).0)
  on_data_recv-cases = on_data_recv-Leaves.holds
