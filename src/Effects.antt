-- ===== src/Effects.antt =====
-- The calls that a handler makes out of the firmware's own state, in their order: ESP-NOW, the USB
-- queue, the NVS store, the mesh clock, the OTA writer and the chip. Logging is left out.
pub mod Sending
use nowde.Prelude.{ℕ, zero, suc, ◌+◌, Bool, List, u32}
use nowde.Wire.{Mac}
use nowde.Usb.{Packet}
use nowde.Midi.{Message}

-- The keys of the `nowde` namespace that hold a byte.
pub data Key : Type 0 where
  role : Key
  lr : Key
  loss : Key
  resyncrb : Key

-- `add_peer` is `esp_now_add_peer` and, when it succeeds under the LR switch, the peer's rate.
pub data Effect : Type 0 where
  add_peer : Mac → Effect
  del_peer : Mac → Effect
  esp_now_send : Mac → List ℕ → Effect
  relay : Mac → List ℕ → Effect
  usb : List Packet → Effect
  midi : Message → Effect
  put_layer : List ℕ → Effect
  put_byte : Key → ℕ → Effect
  clear_store : Effect
  reset_clock : Effect
  log_enable : Bool → Effect
  update_abort : Effect
  update_begin : ℕ → Effect
  update_write : List ℕ → Effect
  update_end : Effect
  restart : Effect

-- What a call of `esp_now_send` returns: ESP_OK, ESP_ERR_ESPNOW_NO_MEM, any other error.
pub data SendResult : Type 0 where
  sent : SendResult
  no_mem : SendResult
  failed : SendResult

-- The loop of `relaySend`, with `tries` left: what the last call returned, and how many calls were
-- made. `result` answers the calls, in their order.
retry : (ℕ → SendResult) → ℕ → ℕ → SendResult → SendResult × ℕ
retry result zero calls no_mem = (no_mem, calls)
retry result (suc tries) calls no_mem = retry result tries (suc calls) (result calls)
retry result tries calls r = (r, calls)

-- `if (r != ESP_OK) espnowRelayDropped++`.
abbrev pub count_of : ℕ → SendResult → ℕ
count_of dropped sent = dropped
count_of dropped _ = u32 (dropped + 1)

-- `relaySend`: the frame is offered again, three times at most, while the queue of the driver is
-- full. The answer, the number of calls, and `espnowRelayDropped` after it.
unfoldable pub relay_send : (ℕ → SendResult) → ℕ → SendResult × ℕ × ℕ
unfolding retry
relay_send result dropped =
    let (r, calls) = retry result 3 1 (result 0) in (r, calls, count_of dropped r)
