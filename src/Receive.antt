-- ===== src/Receive.antt =====
-- What a round of a receiving thread comes to: `recv_thread` of src/tcp_sock.cpp and of
-- src/pty_dev.cpp, which wait by `select` for 100 ms and then read into a buffer of 64 bytes.
use me56ps2_emulator.Prelude.{zero, suc, take}
use me56ps2_emulator.Text.{Text}
use me56ps2_emulator.Os.{Ret, fail, got}

-- The thread ends, it goes on without a byte, or it hands bytes to its callback.
pub data Arrival : Type 0 where
  ended quiet : Arrival
  arrived : Text → Arrival

-- by what the call returned that read `incoming`
unfoldable pub arrival : Ret → Text → Arrival
arrival fail incoming = ended
arrival (got zero) incoming = ended
arrival (got (suc n)) incoming = arrived (take (suc n) incoming)
