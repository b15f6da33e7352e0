-- ===== src/Context.antt =====
-- src/app_context.h, the state that the threads share, and the callbacks of src/main_app.cpp that
-- the sockets call. `echo` is the field of the one modem object; `os` is the system around it all.
-- Each field is atomic or behind the mutex of its class, so that a function's calls are its steps.
pub mod Laws
pub mod Readers
pub mod Healthy
use me56ps2_emulator.Prelude.{ℕ, Bool, true, false, Option, none, some, List, if◌then◌else◌}
use me56ps2_emulator.Text.{Text, bytes}
use me56ps2_emulator.RingBuffer.{RingBuffer, enqueue}
use me56ps2_emulator.TcpSock
use me56ps2_emulator.TcpSock.{TcpSock}
use me56ps2_emulator.PtyDev
use me56ps2_emulator.PtyDev.{PtyDev}
use me56ps2_emulator.Receive.{Arrival, ended, quiet, arrived}
use me56ps2_emulator.Os.{Ret, fail, got, Syscall, syscall, Os, Outcome, ok, fault, running, Fault}

pub record Context : Type 0 where
  pub usb_tx_buffer : RingBuffer ℕ
  pub sock : Option TcpSock
  pub pty : Option PtyDev
  pub connected : Bool
  pub echo : Bool
  pub os : Os

-- `usb_tx_buffer.enqueue(s)`, where the number of accepted bytes is not looked at. The
-- `notify_one` behind it changes nothing here: it wakes a thread that `RingBuffer.wait` describes.
unfoldable pub transmit : Text → Context → Context
transmit s c = record c { usb_tx_buffer = (enqueue c.usb_tx_buffer s).1 }

unfoldable pub ring_callback : Context → Context
ring_callback c = transmit (bytes "RING\r\n") c

-- Bytes from the other side, of the socket or the terminal.
unfoldable pub recv_callback : Text → Context → Context
recv_callback buffer c = if c.connected then transmit buffer c else c

-- what `listen_thread` does with a client that `accept` hands over, with its callback
unfoldable pub listen_step : TcpSock → ℕ → Context → Context
listen_step s client_fd c =
    let (rings, s', os') = TcpSock.accept_client s client_fd c.os in
    let c' = record c { sock = some s'; os = os' } in if rings then ring_callback c' else c'

-- A round of `listen_thread`: it throws where `accept` fails.
unfoldable pub listen_round : TcpSock → Context → Outcome Context
listen_round s c =
    let (ret, os1) = syscall (Syscall.accept s.server_fd) c.os in
    elim ret [
      | fail ↦ fault Fault.runtime_error
      | got client_fd ↦ ok (listen_step s client_fd (record c { os = os1 }))
    ]

unfoldable close_sock : Option TcpSock → Context → Context
close_sock none c = c
close_sock (some s) c =
    let (s', os') = TcpSock.disconnect s c.os in
    if TcpSock.is_connected s then record c { sock = some s'; os = os' } else c

unfoldable close_pty : Option PtyDev → Context → Context
close_pty none c = c
close_pty (some p) c =
    let (p', os') = PtyDev.disconnect p c.os in
    if PtyDev.is_connected p then record c { pty = some p'; os = os' } else c

-- `Modem::handle_disconnect`: the game hangs up.
unfoldable pub handle_disconnect : Context → Context
unfolding close_sock close_pty
handle_disconnect c =
    let c1 = record c { connected = false } in let c2 = close_sock c1.sock c1 in close_pty c2.pty c2

-- A round of a receiving thread with its callback; false says that the thread ends.
unfoldable pub receive : Arrival × Os → Context → Bool × Context
receive (arrival, os') c =
    let c' = record c { os = os' } in
    elim arrival [
      | ended ↦ (false, c')
      | quiet ↦ (true, c')
      | arrived buffer ↦ (true, recv_callback buffer c')
    ]

unfoldable pub sock_recv_step : TcpSock → ℕ → Context → Bool × Context
sock_recv_step s comm_fd c = receive (TcpSock.recv_round s comm_fd c.os) c

unfoldable pub pty_recv_step : PtyDev → ℕ → Context → Bool × Context
pty_recv_step p fd c = receive (PtyDev.recv_round p fd c.os) c
