-- ===== src/Lib.antt =====
-- Nowde: ESP32-S3 firmware that carries media sync from a master's host over ESP-NOW to slaves, and
-- from each slave to its own host as USB-MIDI. One node has two tasks (USB on core 0, the mesh on
-- core 1) that share globals; a host speaks SysEx to its node, nodes speak packed frames.
--
-- Which file models which part (paths from the repository's root):
--   Codec      src/sysex.cpp: encode7bit, decode7bit.
--   Wire       src/nowde_config.h: the packed frames, byte for byte.
--   Usb        how src/sysex.cpp cuts SysEx into USB-MIDI packets, and how midiProcess
--              (src/midi.cpp) puts a frame together; Usb/Queue and Usb/Log are
--              src/usb_out.cpp.
--   Midi       src/midi.cpp: control changes, MIDI time code, full frames, Start and Stop.
--   Sync       src/nowde_state.cpp: the state of following, origin lock, sync quality, clock guard.
--   Follow     src/receiver_mode.cpp: processMediaSyncPacket.
--   Slots      the search loop that the fixed tables share.
--   Relay      src/mesh_relay.cpp: controlled flooding.
--   Tables     src/sender_mode.cpp and src/receiver_mode.cpp: the tables and their timeouts.
--   Effects    the calls out of the firmware's state, and relaySend of src/sysex.cpp.
--   Node       the globals of src/nowde_state.cpp, applyRole, and the loads of src/storage.cpp.
--   Replies    src/sysex.cpp: HELLO, CONFIG_STATE, RUNNING_STATE, ERROR_REPORT.
--   Ota, Commands, Sysex   src/sysex.cpp: handleSysExMessage and every case of its switch.
--   Receive    src/esp_now_handlers.cpp: onDataRecv.
--   Resync     src/main.cpp: meshResyncTick.
--   Task       src/main.cpp: one turn of espnowTask, and one that the receive callback interrupts.
--   Boot       src/storage.cpp and setup of src/main.cpp: the store, and a boot from it.
--   Host       src/midi.cpp: midiProcess, the turn of the MIDI task; a query and a whole update.
--   Delivery   a cue of a host through a master and over the air to a slave.
--   Panel, Ui  src/ui.cpp: the status colour, what the LED and the pages show; start, tick, button.
--   Network    several nodes on the air, from Receive and Relay: a step relation and its runs;
--              Network/Latency the polls of one node.
--   Writers    src/usb_out.cpp, the lock, and src/midi.cpp: tasks that interleave at the queue.
--   Life       src/main.cpp: a node from its boot on, all tasks and the radio callback together;
--              Life/Report a slave's report, on its way to the host of its master (Life/Sends
--              to whom it goes, Life/Turns the turns of the master in between).
--   Settings   what a SET_ command stores and what a boot loads, taken together.
--   Config     the constants of a default build. Prelude: shared helpers. Tests: runs at fixed data.
-- A function's name is the source's in snake case (handleFloodCandidate: handle_flood_candidate); a
-- static of a function is a field of the state that its model takes and returns. A handler returns
-- the new state and the list of its effects, in the order of the calls.
--
-- Numbers are natural numbers with each wrap written out: millis(), positions and stored times are
-- 32-bit words (sub32, u32), `seq` wraps at 16 bits, a hop byte at 8, and a signed comparison is one
-- on the bit pattern. A handler reads millis() once, as an argument (`now`); the one handler that
-- waits between two readings adds the wait (20 ms). Loops are structural; encode7bit and decode7bit
-- run on fuel, the length of the input, which is enough since a chunk takes a byte at least.
--
-- Arguments stand for what is not the firmware's: the mesh clock's readings and state, random
-- draws, results of esp_now_send and of the OTA writer, and which writes TinyUSB takes (`World`,
-- or a function from the call's number to its answer). FreeRTOS's queue and ring
-- buffer are bounded FIFOs; how many bytes a receive from the ring gives out is an argument.
--
-- Not modelled: what is logged, and the build that logs to a CDC port; how the display is drawn
-- (src/ui.cpp); USB, WiFi and task set-up; the interleaving of the tasks and of the radio callback
-- inside a handler (each handler is one step, but for what tasks write to the host, in Writers, and
-- for the frames that come between the parts of a turn, in Task/Interrupted);
-- the mesh clock itself (lib/ESPNowMeshClock, a copy of another library); the tools.
pub mod Prelude
pub mod Config
pub mod Codec
pub mod Wire
pub mod Slots
pub mod Usb
pub mod Midi
pub mod Effects
pub mod Sync
pub mod Follow
pub mod Relay
pub mod Tables
pub mod Node
pub mod Replies
pub mod Ota
pub mod Commands
pub mod Sysex
pub mod Receive
pub mod Resync
pub mod Task
pub mod Settings
pub mod Host
pub mod Boot
pub mod Panel
pub mod Ui
pub mod Delivery
pub mod Network
pub mod Writers
pub mod Life
pub mod Tests
