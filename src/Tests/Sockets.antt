-- ===== src/Tests/Sockets.antt =====
-- The theorems on the devices and on hanging up, at a system whose calls all succeed.
use me56ps2_emulator.Prelude.{
  take, ◌≡◌, ◌≢◌, refl, ◌⊎◌, true, false, not, ℕ, none, some, [], ◌∷◌, ◌++◌, arith, if◌then◌else◌,
}
use me56ps2_emulator.Text.{bytes}
use me56ps2_emulator.RingBuffer.Inv.{IsValid, contents}
use me56ps2_emulator.RingBuffer.Bulk.{room}
use me56ps2_emulator.Os.{logged, Os, Syscall, got, ok}
use me56ps2_emulator.TcpSock
use me56ps2_emulator.TcpSock.{TcpSock}
use me56ps2_emulator.PtyDev
use me56ps2_emulator.PtyDev.{PtyDev, pty_dev}
use me56ps2_emulator.PtyDev.Send.{written}
use me56ps2_emulator.Modem.Line.{online_loop}
use me56ps2_emulator.Modem.Line.Online.{online_loop-written, online_loop-sent}
use me56ps2_emulator.Context.{listen_step, Context, handle_disconnect}
use me56ps2_emulator.Context.Laws.{listen_step_lem, Down, SameRest, handle_disconnect-Down}
use me56ps2_emulator.Tests.Sample.{ring, ring-IsValid, system, sock, context}

idle : TcpSock.is_connected (sock 0) ≡ false
unfolding TcpSock.is_connected
idle = refl

abbrev nobody : ℕ → ℕ
nobody fd = 0

Owns-none : TcpSock.Laws.Owns nobody (sock 0) (system 1)
Owns-none fd = rw idle (omega arith)

got_one : got 1 ≢ got 0
got_one e = absurd cc

busy : TcpSock.is_connected (sock 5) ≡ true
unfolding TcpSock.is_connected
busy = refl

accept_client_example :
    let accepted = logged (Syscall.accept none) (got 6) (system 1) in
    let (rings, s', os') = TcpSock.accept_client (sock 0) 6 accepted in
    (rings ≡ not (TcpSock.is_connected (sock 0)))
    × (s'.comm_fd ≡ (if TcpSock.is_connected (sock 0) then 0 else 6))
    × (TcpSock.is_connected s' ≡ true)
    × TcpSock.Laws.Owns nobody s' os'
    × ((TcpSock.is_connected (sock 0) ≡ false) ⊎ (s' ≡ sock 0))
accept_client_example =
    TcpSock.Laws.accept_client-Owns nobody (sock 0) 6 (system 1) (omega arith) Owns-none

shut : PtyDev.is_connected pty_dev ≡ false
unfolding PtyDev.is_connected pty_dev
shut = refl

shut-OwnsPty : PtyDev.Laws.OwnsPty nobody pty_dev (system 1)
shut-OwnsPty fd = rw shut (omega arith)

pty_connect_example : PtyDev.Laws.Attempt nobody pty_dev (PtyDev.connect pty_dev (system 1))
pty_connect_example =
    PtyDev.Laws.connect-Attempt nobody pty_dev shut (system 1) got_one shut-OwnsPty

abbrev open_pty : PtyDev
open_pty = record { master_fd = 5; slave_name = []; recv_thread_ptr = some 5 }

open_pty_connected : PtyDev.is_connected open_pty ≡ true
unfolding PtyDev.is_connected
open_pty_connected = refl

handle_disconnect_example :
    Down (handle_disconnect context) × SameRest context (handle_disconnect context)
handle_disconnect_example = handle_disconnect-Down context

abbrev with_provider : Context
with_provider = record context { pty = some open_pty }

online_loop-written_example :
    (os' : Os) × (online_loop 3 (7 ∷ 8 ∷ 9 ∷ []) with_provider
      ≡ ok ([], record with_provider { os = os' }))
    × (written 5 os'.trace ≡ [] ++ 7 ∷ 8 ∷ 9 ∷ [])
online_loop-written_example =
    online_loop-written 3 (7 ∷ 8 ∷ 9 ∷ []) with_provider open_pty refl refl open_pty_connected
      (omega arith) (λ k fd s. ((0, refl), (0, refl)))

online_loop-sent_example :
    (os' : Os) × (online_loop 3 (7 ∷ 8 ∷ 9 ∷ []) context ≡ ok ([], record context { os = os' }))
    × (TcpSock.Laws.sent 5 os'.trace ≡ [] ++ 7 ∷ 8 ∷ 9 ∷ [])
online_loop-sent_example =
    online_loop-sent 3 (7 ∷ 8 ∷ 9 ∷ []) context pty_dev (sock 5) refl refl shut refl busy
      (omega arith) (λ k fd s. ((0, refl), (0, refl)))

listen_step_example :
    let d = listen_step (sock 0) 6 context in
    (s' : TcpSock) × (d.sock ≡ some s')
    × (TcpSock.is_connected s' ≡ true)
    × (d.connected ≡ true)
    × IsValid d.usb_tx_buffer
    × (contents d.usb_tx_buffer
        ≡ contents ring
          ++ (if TcpSock.is_connected (sock 0) then [] else take (room ring) (bytes "RING\r\n")))
listen_step_example = listen_step_lem (sock 0) 6 context (omega arith) ring-IsValid
