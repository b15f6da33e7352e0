-- ===== src/TcpSock.antt =====
-- src/tcp_sock.cpp: the connection to the other player, as client or as server.
pub mod Laws
use me56ps2_emulator.Prelude.{
  take, ℕ, Bool, true, false, not, Option, none, some, List, [], ◌∷◌, ◌==◌, if◌then◌else◌, drop,
  suc, length, ltb,
}
use me56ps2_emulator.Text.{Text}
use me56ps2_emulator.Modem.Address.{SockAddr}
use me56ps2_emulator.Receive.{Arrival, ended, quiet, arrived, arrival}
use me56ps2_emulator.Os.{
  Ret, fail, got, Syscall, Os, syscall, perform, Fault, Outcome, ok, fault, running,
}

-- `server_fd` is `none` for -1. `recv_thread_ptr` holds the descriptor that its thread reads.
-- `debug_level` and the callbacks, which main sets once, are left out.
pub record TcpSock : Type 0 where
  pub server_fd : Option ℕ
  pub comm_fd : ℕ
  pub is_server : Bool
  pub addr : SockAddr
  pub recv_thread_ptr : Option ℕ
  pub listen_thread_ptr : Bool

abbrev fresh : Bool → SockAddr → TcpSock
fresh is_server addr = record {
  server_fd = none;
  comm_fd = 0;
  is_server = is_server;
  addr = addr;
  recv_thread_ptr = none;
  listen_thread_ptr = false;
}

-- `bind`, then `listen` and the thread
open_server : TcpSock → ℕ → Os → Outcome (TcpSock × Os)
open_server s fd os =
    let (bound, os1) = syscall (Syscall.bind fd s.addr) os in
    let (listening, os2) = syscall (Syscall.listen fd) os1 in
    elim bound [
      | fail ↦ fault Fault.runtime_error
      | got _ ↦ elim listening [
        | fail ↦ fault Fault.runtime_error
        | got _ ↦ ok (
          record s { server_fd = some fd; listen_thread_ptr = true },
          perform Syscall.listen_thread os2,
        )
      ]
    ]

-- The constructor; `addr` is what it makes of its address and port.
pub tcp_sock : Bool → SockAddr → Os → Outcome (TcpSock × Os)
unfolding open_server
tcp_sock false addr os = ok (fresh false addr, os)
tcp_sock true addr os =
    let (ret, os1) = syscall Syscall.socket os in
    elim ret [ fail ↦ fault Fault.runtime_error | got fd ↦ open_server (fresh true addr) fd os1 ]

unfoldable pub set_addr : TcpSock → SockAddr → TcpSock
set_addr s addr_in = record s { addr = addr_in }

unfoldable pub is_connected : TcpSock → Bool
is_connected s = not (s.comm_fd == 0)

unfoldable pub connect : TcpSock → Os → Outcome (Bool × TcpSock × Os)
connect s os =
    let (ret, os1) = syscall Syscall.socket os in
    elim ret [
      | fail ↦ fault Fault.runtime_error
      | got comm_fd ↦
          let (ret', os2) = syscall (Syscall.connect comm_fd s.addr) os1 in
          elim ret' [
            | fail ↦ ok (false, s, perform (Syscall.close comm_fd) os2)
            | got _ ↦ ok (
              true,
              record s { comm_fd = comm_fd; recv_thread_ptr = some comm_fd },
              perform (Syscall.recv_thread comm_fd) os2,
            )
          ]
    ]

-- The thread ends by itself once it sees the descriptor gone, and is waited for.
unfoldable join_thread : TcpSock → Os → TcpSock × Os
join_thread s os = elim s.recv_thread_ptr [
  | none ↦ (s, os)
  | some fd ↦ (record s { recv_thread_ptr = none }, perform (Syscall.join fd) os)
]

unfoldable pub disconnect : TcpSock → Os → TcpSock × Os
unfolding join_thread
disconnect s os =
    if s.comm_fd == 0
    then join_thread s os
    else join_thread (record s { comm_fd = 0 }) (perform (Syscall.close s.comm_fd) os)

-- The destructor: the listening descriptor, the listening thread, and the connection.
close_server : Option ℕ → Os → Os
close_server none os = os
close_server (some fd) os = perform (Syscall.close fd) os

unfoldable pub delete : TcpSock → Os → TcpSock × Os
unfolding disconnect close_server
delete s os =
    let os1 = close_server s.server_fd os in
    let os2 = if s.listen_thread_ptr then perform Syscall.join_listen os1 else os1 in
    disconnect (record s { listen_thread_ptr = false }) os2

-- `listen_thread`, for one client that `accept` hands over: true says that the line rings.
unfoldable pub accept_client : TcpSock → ℕ → Os → Bool × TcpSock × Os
accept_client s client_fd os =
    if s.comm_fd == 0
    then (
      true,
      record s { comm_fd = client_fd; recv_thread_ptr = some client_fd },
      perform (Syscall.recv_thread client_fd) os,
    )
    else (false, s, perform (Syscall.close client_fd) os)

-- The loop of `send`: the list is what is left from `buffer + ptr` on.
unfoldable pub send_from : ℕ → ℕ → Text → Os → Outcome Os
send_from fuel fd [] os = ok os
send_from ℕ.zero fd (c ∷ rest) os = running
send_from (suc fuel) fd (c ∷ rest) os =
    let (ret, os1) = syscall (Syscall.send fd (c ∷ rest)) os in
    elim ret [ fail ↦ ok os1 | got n ↦ send_from fuel fd (drop n (c ∷ rest)) os1 ]

unfoldable pub send : ℕ → TcpSock → Text → Os → Outcome Os
unfolding send_from
send fuel s buffer os = if s.comm_fd == 0 then ok os else send_from fuel s.comm_fd buffer os

-- A round of `recv_thread` on the descriptor that it was started with: `select`, where 0 says that
-- time ran out, and then `recv`.
unfoldable pub recv_round : TcpSock → ℕ → Os → Arrival × Os
unfolding arrival
recv_round s comm_fd os =
    let (ready, os1) = syscall (Syscall.select comm_fd) os in
    elim ready [
      | fail ↦ (ended, os1)
      | got ℕ.zero ↦ (if is_connected s then quiet else ended, os1)
      | got (suc _) ↦
          let (len, os2) = syscall (Syscall.recv comm_fd) os1 in
          (arrival len (os1.incoming os1.clock), os2)
    ]

-- What `recv` returns; nothing calls it.
unfoldable pub recv : TcpSock → Os → Ret × Os
recv s os = syscall (Syscall.recv s.comm_fd) os
