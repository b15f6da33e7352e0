-- ===== src/Tests/System.antt =====
-- The theorems on the emulator as a whole and on the receiving threads, at a small state.
use me56ps2_emulator.System.Delivery.{sock_reads_delivers, turns, HasRead}
use me56ps2_emulator.RingBuffer.{RingBuffer}
use me56ps2_emulator.RingBuffer.Inv.{length-contents, IsValid}
use me56ps2_emulator.Modem.Line.{framing, skips_nul}
use me56ps2_emulator.Prelude.{
  ℕ, ◌∷◌, arith, ◌++◌, replicate, ◌==◌, ◌≡◌, refl, true, false, [], if◌then◌else◌,
}
use me56ps2_emulator.Text.{bytes}
use me56ps2_emulator.Os.{running, fault, ok, Outcome, Syscall, got, perform, EndsIn}
use me56ps2_emulator.TcpSock
use me56ps2_emulator.PtyDev
use me56ps2_emulator.PtyDev.{pty_dev}
use me56ps2_emulator.Context.{Context, sock_recv_step, pty_recv_step, listen_step}
use me56ps2_emulator.Context.Healthy.{Healthy, Able}
use me56ps2_emulator.Context.Readers.{
  Passed, heard, sock_recv_step_lem, pty_recv_step_lem, sock_recv_step_closed,
}
use me56ps2_emulator.Modem.At.{Model}
use me56ps2_emulator.Modem.Line.Safe.{lines}
use me56ps2_emulator.System.{sock_reads, turn, System, packet_comes, packet_goes, hangs_up, step}
use me56ps2_emulator.System.Steps.{stream, Continues, Allowed, step-Continues}
use me56ps2_emulator.System.Line.{LineAfter, step-LineAfter}
use me56ps2_emulator.System.Reach.{Reach, start, next, Reach-Continues}
use me56ps2_emulator.Tests.Sample.{ring-IsValid, sock, context, off_line, system}

sock_recv_step_example :
    Passed
      (heard (TcpSock.is_connected (sock 5)) (Syscall.recv 5) 5 context.os)
      context
      (sock_recv_step (sock 5) 5 context)
sock_recv_step_example = sock_recv_step_lem 5 context ring-IsValid (sock 5)

pty_recv_step_example :
    Passed
      (heard (PtyDev.is_connected pty_dev) (Syscall.read 5) 5 context.os)
      context
      (pty_recv_step pty_dev 5 context)
pty_recv_step_example = pty_recv_step_lem 5 context ring-IsValid pty_dev

-- `select` finds the socket ready, and `recv` that it has been closed.
abbrev closing : Context
closing = record context {
  os = record (system 1) { answers = λ k call. if k == 1 then got 0 else got 1 };
}

busy : TcpSock.is_connected (sock 5) ≡ true
unfolding TcpSock.is_connected
busy = refl

sock_recv_step_closed_example :
    let (more, d) = sock_recv_step (sock 5) 5 closing in
    (more ≡ false)
    × (d ≡ record closing { os = d.os })
    × (listen_step (sock 5) 7 d ≡ record closing { os = perform (Syscall.close 7) d.os })
sock_recv_step_closed_example = sock_recv_step_closed (sock 5) 5 7 closing 0 busy refl refl refl

able : Able (system 1).answers
able = record {
  sends = λ k fd s e. absurd cc;
  writes = λ k fd s e. absurd cc;
  sockets = λ k e. absurd cc;
  accepts = λ k fd e. absurd cc;
  ep_reads = λ k ep_num e. absurd cc;
  ep_writes = λ k ep_num s e. absurd cc;
}

idle-Healthy : Healthy off_line
idle-Healthy = record { buffer = ring-IsValid; terminal = (pty_dev, refl); able = able }

abbrev idle : System
idle = record { context = off_line; buffer = bytes "A"; last_dcd = false; heard = [] }

polite : Allowed true Model.lucent (packet_comes 2 (bytes "T\r")) idle
unfolding lines bytes skips_nul framing
polite = (bytes "T\r", refl, ((λ e. absurd cc), tt))

step-Continues_example :
    EndsIn (Continues idle) (step true Model.lucent (packet_comes 2 (bytes "T\r")) idle)
step-Continues_example =
    step-Continues true Model.lucent (packet_comes 2 (bytes "T\r")) idle polite idle-Healthy

-- the state that a turn leaves
abbrev left_by : Outcome System → System
left_by (ok t) = t
left_by _ = idle

goes_through : (m : Outcome System) → EndsIn (Continues idle) m → m ≡ ok (left_by m)
goes_through (ok t) h = refl
goes_through (fault e) h = elim h [ ]
goes_through running h = elim h [ ]

abbrev read_once : System
read_once = left_by (step true Model.omron (packet_goes 1) idle)

abbrev hung_up : System
hung_up = record read_once { context = turn hangs_up read_once.context }

two_turns : Reach true Model.omron idle hung_up
unfolding step
two_turns =
    let first : Reach true Model.omron idle read_once =
      next idle read_once (packet_goes 1) start tt (
        goes_through (step true Model.omron (packet_goes 1) idle)
          (step-Continues true Model.omron (packet_goes 1) idle tt idle-Healthy)) in
    next read_once hung_up hangs_up first tt refl

Reach-Continues_example : Continues idle hung_up
Reach-Continues_example = Reach-Continues true Model.omron idle hung_up idle-Healthy two_turns

step-LineAfter_example :
    EndsIn
      (LineAfter (packet_comes 2 (bytes "T\r")) idle)
      (step true Model.lucent (packet_comes 2 (bytes "T\r")) idle)
step-LineAfter_example =
    step-LineAfter true Model.lucent (packet_comes 2 (bytes "T\r")) idle polite idle-Healthy

-- `select` finds the socket ready, and `recv` reads five bytes.
abbrev free : RingBuffer ℕ
free = record {
  buffer = 0 ∷ 0 ∷ 0 ∷ 0 ∷ 0 ∷ 0 ∷ 0 ∷ 0 ∷ [];
  buffer_size = 8;
  write_ptr = 0;
  read_ptr = 0;
}

free-IsValid : IsValid free
free-IsValid = record {
  storage = omega arith;
  small = omega arith;
  write_in = omega arith;
  read_in = omega arith;
}

abbrev online : System
online = record {
  context = record context { usb_tx_buffer = free; os = system 5 };
  buffer = [];
  last_dcd = true;
  heard = [];
}

sock_reads_delivers_example :
    EndsIn
      (HasRead (stream online ++ bytes "LOGIN"))
      (turns true Model.omron (sock_reads 5 ∷ replicate 1 (packet_goes 1)) online)
unfolding bytes
sock_reads_delivers_example =
    sock_reads_delivers true Model.omron 1 5 1 (sock 5) online (λ k packet e. absurd cc)
      free-IsValid refl refl (omega arith) (omega (arith, length-contents free free-IsValid))
