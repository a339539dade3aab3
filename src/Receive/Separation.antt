-- ===== src/Receive/Separation.antt =====
-- A node either drives the mesh or follows it.
use nowde.Prelude.{ℕ, ◌≡◌, ◌≢◌, Bool, true, List, length, get_or, arith, u8}
use nowde.Usb.{sysex_start}
use nowde.Wire.{Mac}
use nowde.Node.{Node, World}
use nowde.Sysex.Roles.{SlaveIsQuiet, handle_sysex_message-SlaveIsQuiet}
use nowde.Receive.{consume, flood, on_media_sync, on_mesh_relay, on_data_recv}

-- Whatever frame a node hears on the mesh, if its role is slave after it, it is not in sender
-- mode, provided that this was so before.
pub on_data_recv-SlaveIsQuiet :
    (w : World) (mesh_handled : Bool) (src : Mac) (bytes : List ℕ) (n : Node)
    → SlaveIsQuiet n
    → SlaveIsQuiet ((on_data_recv w mesh_handled src bytes n).0)
unfolding on_data_recv on_media_sync on_mesh_relay consume flood
on_data_recv-SlaveIsQuiet w mesh_handled src bytes n q =
    let h = handle_sysex_message-SlaveIsQuiet w (u8 (length bytes)) bytes n q in ground arith

-- A node that drives the mesh does not follow it: whatever it hears, direct or relayed, unless it is
-- SysEx, its state of following and its origin lock stay as they are.
pub on_data_recv_sender :
    (w : World) (mesh_handled : Bool) (src : Mac) (bytes : List ℕ) (n : Node)
    → n.sender_mode ≡ true
    → get_or bytes 0 0 ≢ sysex_start
    → (on_data_recv w mesh_handled src bytes n).0.follower ≡ n.follower
unfolding on_data_recv on_media_sync on_mesh_relay consume flood
on_data_recv_sender w mesh_handled src bytes n s k = ground arith
