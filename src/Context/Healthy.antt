-- ===== src/Context/Healthy.antt =====
-- What every thread relies on in the shared state, and that what the threads do to it keeps it so.
use me56ps2_emulator.RingBuffer.Inv.{contents, IsValid}
use me56ps2_emulator.Prelude.{
  false, true, true, if◌then◌else◌, inr, inl, ◌==◌, Bool-cases, ◌≡◌, ◌≢◌, Option, refl, ap, sym,
  ◌∙◌, ℕ, some, [], ◌++◌, append-nil, append_assoc,
}
use me56ps2_emulator.TcpSock
use me56ps2_emulator.PtyDev
use me56ps2_emulator.Text.{Text, bytes}
use me56ps2_emulator.Os.{EndsIn, Ret-cases, logged, Ret, fail, got, Syscall, Os}
use me56ps2_emulator.Context.{
  listen_round, Bool, receive, TcpSock, transmit, Arrival, PtyDev, Context, listen_step,
  ring_callback, sock_recv_step, pty_recv_step, handle_disconnect,
}
use me56ps2_emulator.Context.Laws.{
  transmit_lem, handle_disconnect-Down, handle_disconnect-answers, handle_disconnect_there,
}
use me56ps2_emulator.Context.Readers.{
  receive_lem, receive_os, sock_recv_round-answers, pty_recv_round-answers,
}

-- A call that sends takes a byte at least or fails, there is always a socket to be had, and `accept`
-- and the transfers of the game's packets do not fail.
pub record Able (answers : ℕ → Syscall → Ret) : Type 0 where
  pub sends : (k fd : ℕ) (s : Text) → answers k (Syscall.send fd s) ≢ got 0
  pub writes : (k fd : ℕ) (s : Text) → answers k (Syscall.write fd s) ≢ got 0
  pub sockets : (k : ℕ) → answers k Syscall.socket ≢ fail
  pub accepts : (k : ℕ) (fd : Option ℕ) → answers k (Syscall.accept fd) ≢ fail
  pub ep_reads : (k ep_num : ℕ) → answers k (Syscall.ep_read ep_num) ≢ fail
  pub ep_writes : (k ep_num : ℕ) (s : Text) → answers k (Syscall.ep_write ep_num s) ≢ fail

-- what every thread relies on
pub record Healthy (c : Context) : Type 0 where
  pub buffer : IsValid c.usb_tx_buffer
  pub terminal : (p : PtyDev) × (c.pty ≡ some p)
  pub able : Able c.os.answers

-- Bytes may have been put behind those that wait for the game.
abbrev pub Grown : Context → Context → Type 0
Grown c d = Healthy d × ((s : Text) × (contents d.usb_tx_buffer ≡ contents c.usb_tx_buffer ++ s))

pub Grown-refl : (c : Context) → Healthy c → Grown c c
Grown-refl c h = (h, ([], sym (append-nil _)))

pub Grown-trans : (b c d : Context) → Grown b c → Grown c d → Grown b d
Grown-trans b c d (_, (s, e)) (h, (t, e')) =
    (h, (s ++ t, e' ∙ ap (λ l. l ++ t) e ∙ append_assoc (contents b.usb_tx_buffer) s t))

-- the system behind some calls: it answers as before
abbrev pub SameAnswers : Os → Os → Type 0
SameAnswers os os' = os'.answers ≡ os.answers

pub with_os-Grown :
    (c : Context) (os' : Os) → Healthy c → SameAnswers c.os os' → Grown c (record c { os = os' })
with_os-Grown c os' h same = (
  record { buffer = h.buffer; terminal = h.terminal; able = rw same h.able },
  ([], sym (append-nil _)),
)

receive-Grown :
    (a : Arrival) (os : Os) (c : Context)
    → Healthy c
    → SameAnswers c.os os
    → Grown c (receive (a, os) c).1
receive-Grown a os c h same =
    let (_, kept, v, e) = receive_lem a os c h.buffer in
    let (p, there) = h.terminal in
    let able : Able (receive (a, os) c).1.os.answers = rw (receive_os a os c, same) h.able in
    (record { buffer = v; terminal = (p, kept.1 ∙ there); able = able }, (_, e))

pub sock_recv_step-Grown :
    (s : TcpSock) (fd : ℕ) (c : Context) → Healthy c → Grown c (sock_recv_step s fd c).1
unfolding sock_recv_step
sock_recv_step-Grown s fd c h =
    let (a, os') = TcpSock.recv_round s fd c.os in
    receive-Grown a os' c h (sock_recv_round-answers s fd c.os)

pub pty_recv_step-Grown :
    (p : PtyDev) (fd : ℕ) (c : Context) → Healthy c → Grown c (pty_recv_step p fd c).1
unfolding pty_recv_step
pty_recv_step-Grown p fd c h =
    let (a, os') = PtyDev.recv_round p fd c.os in
    receive-Grown a os' c h (pty_recv_round-answers p fd c.os)

ring-Grown : (c : Context) → Healthy c → Grown c (ring_callback c)
unfolding ring_callback transmit
ring-Grown c h =
    let (v, e) = transmit_lem (bytes "RING\r\n") c h.buffer in
    (record { buffer = v; terminal = h.terminal; able = h.able }, (_, e))

rings-Grown :
    (rings : Bool) (c d : Context) → Grown c d → Grown c (if rings then ring_callback d else d)
rings-Grown true c d g = Grown-trans c d (ring_callback d) g (ring-Grown d g.0)
rings-Grown false c d g = g

accept_client-answers :
    (s : TcpSock) (fd : ℕ) (os : Os) → SameAnswers os (TcpSock.accept_client s fd os).2
unfolding TcpSock.accept_client
accept_client-answers s fd os = elim (Bool-cases (s.comm_fd == 0)) [
  | inl off ↦ simp (off, TcpSock.accept_client)
  | inr on ↦ simp (on, TcpSock.accept_client)
]

pub listen_step-Grown :
    (s : TcpSock) (fd : ℕ) (c : Context) → Healthy c → Grown c (listen_step s fd c)
unfolding listen_step
listen_step-Grown s fd c h =
    let (rings, s', os') = TcpSock.accept_client s fd c.os in
    let (h', same) = with_os-Grown c os' h (accept_client-answers s fd c.os) in
    let c' = record c { sock = some s'; os = os' } in
    rings-Grown rings c c'
      (record { buffer = h'.buffer; terminal = h'.terminal; able = h'.able }, same)

pub listen_round-Grown :
    (s : TcpSock) (c : Context) → Healthy c → EndsIn (Grown c) (listen_round s c)
unfolding listen_round
listen_round-Grown s c h = elim (Ret-cases (c.os.answers c.os.clock (Syscall.accept s.server_fd))) [
  | inl e ↦ absurd (h.able.accepts c.os.clock s.server_fd e)
  | inr (fd, e) ↦
      let os1 = logged (Syscall.accept s.server_fd) (got fd) c.os in
      let c1 = record c { os = os1 } in
      let accepted = with_os-Grown c os1 h refl in
      simp (e, listen_round)
        (Grown-trans c c1 (listen_step s fd c1) accepted (listen_step-Grown s fd c1 accepted.0))
]

pub handle_disconnect-Grown : (c : Context) → Healthy c → Grown c (handle_disconnect c)
handle_disconnect-Grown c h =
    let (_, (same, _)) = handle_disconnect-Down c in
    let (p, there) = h.terminal in
    let able : Able (handle_disconnect c).os.answers = rw (handle_disconnect-answers c) h.able in
    let v : IsValid (handle_disconnect c).usb_tx_buffer = rw same h.buffer in
    (
      record { buffer = v; terminal = handle_disconnect_there p c there; able = able },
      ([], ap contents same ∙ sym (append-nil _)),
    )
