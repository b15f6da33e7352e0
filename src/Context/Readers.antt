-- ===== src/Context/Readers.antt =====
-- What the receiving threads (src/tcp_sock.cpp, src/pty_dev.cpp) hand to `recv_callback` of
-- src/main_app.cpp, and when they end.
use me56ps2_emulator.Prelude.{
  not-false, take-nil, ap, ◌∙◌, ◌+◌, ◌≡◌, refl, ℕ, zero, suc, Bool, true, false, [], ◌++◌, take,
  some, append-nil, sym, Bool-cases, inl, inr, if◌then◌else◌,
}
use me56ps2_emulator.Text.{Text}
use me56ps2_emulator.RingBuffer.Inv.{IsValid, contents}
use me56ps2_emulator.RingBuffer.Bulk.{room}
use me56ps2_emulator.Os.{perform, Ret, fail, got, Syscall, Os, logged, Ret-cases}
use me56ps2_emulator.Receive.{Arrival, ended, quiet, arrived, arrival}
use me56ps2_emulator.TcpSock
use me56ps2_emulator.TcpSock.{TcpSock}
use me56ps2_emulator.PtyDev
use me56ps2_emulator.PtyDev.{PtyDev}
use me56ps2_emulator.Context.{
  listen_step, Context, receive, sock_recv_step, pty_recv_step, transmit, recv_callback,
}
use me56ps2_emulator.Context.Laws.{transmit_lem}

-- the bytes that an arrival brings, and whether the thread goes on
abbrev pub payload : Arrival → Text
payload (arrived buffer) = buffer
payload _ = []

abbrev pub goes_on : Arrival → Bool
goes_on ended = false
goes_on _ = true

-- what a round of a receiving thread leaves alone
abbrev pub Kept : Context → Context → Type 0
Kept c d = (d.sock ≡ c.sock) × (d.pty ≡ c.pty) × (d.connected ≡ c.connected) × (d.echo ≡ c.echo)

-- A round on line puts what arrived behind what waits for the game, as far as there is room, and
-- off line nothing.
abbrev pub Passed : Arrival → Context → Bool × Context → Type 0
Passed a c (more, d) =
    (more ≡ goes_on a)
    × Kept c d
    × IsValid d.usb_tx_buffer
    × (contents d.usb_tx_buffer
        ≡ contents c.usb_tx_buffer
          ++ (if c.connected then take (room c.usb_tx_buffer) (payload a) else []))

transmit-Kept : (s : Text) (c : Context) → Kept c (transmit s c)
unfolding transmit
transmit-Kept s c = (refl, refl, refl, refl)

nothing_arrived :
    (on : Bool) (n : ℕ) (waiting : Text) → waiting ≡ waiting ++ (if on then take n [] else [])
nothing_arrived true n waiting = sym (append-nil waiting) ∙ ap (◌++◌ waiting) (sym (take-nil ℕ n))
nothing_arrived false n waiting = sym (append-nil waiting)

callback_branch :
    (on : Bool) (buffer : Text) (c : Context)
    → IsValid c.usb_tx_buffer
    → let d = if on then transmit buffer c else c in
      Kept c d
      × IsValid d.usb_tx_buffer
      × (contents d.usb_tx_buffer
          ≡ contents c.usb_tx_buffer ++ (if on then take (room c.usb_tx_buffer) buffer else []))
callback_branch true buffer c v =
    let (v', e) = transmit_lem buffer c v in (transmit-Kept buffer c, v', e)
callback_branch false buffer c v =
    ((refl, refl, refl, refl), v, sym (append-nil (contents c.usb_tx_buffer)))

pub receive_lem :
    (a : Arrival) (os : Os) (c : Context) → IsValid c.usb_tx_buffer → Passed a c (receive (a, os) c)
unfolding receive recv_callback
receive_lem ended os c v =
    (refl, (refl, refl, refl, refl), v, nothing_arrived c.connected _ (contents c.usb_tx_buffer))
receive_lem quiet os c v =
    (refl, (refl, refl, refl, refl), v, nothing_arrived c.connected _ (contents c.usb_tx_buffer))
receive_lem (arrived buffer) os c v =
    let (k, v', e) = callback_branch c.connected buffer (record c { os = os }) v in (refl, k, v', e)

-- What arrives, by the answers of the two calls and by what the second one reads.
abbrev pub Heard : Bool → Ret → Ret → Text → Arrival
Heard connected (got zero) len incoming = if connected then quiet else ended
Heard connected (got (suc _)) (got (suc n)) incoming = arrived (take (suc n) incoming)
Heard connected _ len incoming = ended

abbrev pub heard : Bool → Syscall → ℕ → Os → Arrival
heard connected reads fd os =
    Heard connected (os.answers os.clock (Syscall.select fd)) (os.answers (os.clock + 1) reads)
      (os.incoming (os.clock + 1))

Heard-arrival :
    (connected : Bool) (ready len : Ret) (incoming : Text) (n : ℕ)
    → ready ≡ got (suc n)
    → arrival len incoming ≡ Heard connected ready len incoming
unfolding arrival
Heard-arrival connected ready fail incoming n e = simp e
Heard-arrival connected ready (got zero) incoming n e = simp e
Heard-arrival connected ready (got (suc k)) incoming n e = simp e

sock_recv_round :
    (s : TcpSock) (fd : ℕ) (os : Os)
    → (TcpSock.recv_round s fd os).0 ≡ heard (TcpSock.is_connected s) (Syscall.recv fd) fd os
unfolding TcpSock.recv_round
sock_recv_round s fd os = elim (Ret-cases (os.answers os.clock (Syscall.select fd))) [
  | inl e ↦ simp (e, TcpSock.recv_round)
  | inr (zero, e) ↦ simp (e, TcpSock.recv_round)
  | inr (suc n, e) ↦
      simp (e, TcpSock.recv_round)
        (Heard-arrival (TcpSock.is_connected s) (got (suc n)) _ (os.incoming (os.clock + 1)) n refl)
]

pty_recv_round :
    (p : PtyDev) (fd : ℕ) (os : Os)
    → (PtyDev.recv_round p fd os).0 ≡ heard (PtyDev.is_connected p) (Syscall.read fd) fd os
unfolding PtyDev.recv_round
pty_recv_round p fd os = elim (Ret-cases (os.answers os.clock (Syscall.select fd))) [
  | inl e ↦ simp (e, PtyDev.recv_round)
  | inr (zero, e) ↦ simp (e, PtyDev.recv_round)
  | inr (suc n, e) ↦
      simp (e, PtyDev.recv_round)
        (Heard-arrival (PtyDev.is_connected p) (got (suc n)) _ (os.incoming (os.clock + 1)) n refl)
]

-- The calls do not change how the system answers.
pub sock_recv_round-answers :
    (s : TcpSock) (fd : ℕ) (os : Os) → (TcpSock.recv_round s fd os).1.answers ≡ os.answers
unfolding TcpSock.recv_round
sock_recv_round-answers s fd os = elim (Ret-cases (os.answers os.clock (Syscall.select fd))) [
  | inl e ↦ simp (e, TcpSock.recv_round)
  | inr (zero, e) ↦ simp (e, TcpSock.recv_round)
  | inr (suc n, e) ↦ simp (e, TcpSock.recv_round)
]

pub pty_recv_round-answers :
    (p : PtyDev) (fd : ℕ) (os : Os) → (PtyDev.recv_round p fd os).1.answers ≡ os.answers
unfolding PtyDev.recv_round
pty_recv_round-answers p fd os = elim (Ret-cases (os.answers os.clock (Syscall.select fd))) [
  | inl e ↦ simp (e, PtyDev.recv_round)
  | inr (zero, e) ↦ simp (e, PtyDev.recv_round)
  | inr (suc n, e) ↦ simp (e, PtyDev.recv_round)
]

pub receive_os : (a : Arrival) (os : Os) (c : Context) → (receive (a, os) c).1.os ≡ os
unfolding receive recv_callback transmit
receive_os ended os c = refl
receive_os quiet os c = refl
receive_os (arrived buffer) os c = elim (Bool-cases c.connected) [
  | inl on ↦ simp (on, receive, recv_callback)
  | inr off ↦ simp (off, receive, recv_callback)
]

module _ (fd : ℕ) (c : Context) (v : IsValid c.usb_tx_buffer) where
  -- A round of the thread that receives from the other player, with a valid buffer: the thread goes
  -- on exactly if time ran out on a connected socket or bytes were read, and then these bytes are put
  -- behind what waits for the game, as far as there is room, if the line is up.
  pub sock_recv_step_lem :
      (s : TcpSock)
      → Passed (heard (TcpSock.is_connected s) (Syscall.recv fd) fd c.os) c (sock_recv_step s fd c)
  unfolding sock_recv_step
  sock_recv_step_lem s =
      let (a, os') = TcpSock.recv_round s fd c.os in
      rw (← sock_recv_round s fd c.os) (receive_lem a os' c v)

  -- A round of the thread that receives from the provider does the same, by its own calls.
  pub pty_recv_step_lem :
      (p : PtyDev)
      → Passed (heard (PtyDev.is_connected p) (Syscall.read fd) fd c.os) c (pty_recv_step p fd c)
  unfolding pty_recv_step
  pty_recv_step_lem p =
      let (a, os') = PtyDev.recv_round p fd c.os in
      rw (← pty_recv_round p fd c.os) (receive_lem a os' c v)

listen_step_busy :
    (s : TcpSock) (client_fd : ℕ) (c : Context)
    → TcpSock.is_connected s ≡ true
    → c.sock ≡ some s
    → listen_step s client_fd c ≡ record c { os = perform (Syscall.close client_fd) c.os }
unfolding listen_step TcpSock.accept_client TcpSock.is_connected
listen_step_busy s client_fd c on e =
    simp (not-false _ on, listen_step, TcpSock.accept_client)
      (ap (λ t. record c { sock = t; os = perform (Syscall.close client_fd) c.os }) (sym e))

recv_round_closed :
    (s : TcpSock) (fd : ℕ) (os : Os) (n : ℕ)
    → os.answers os.clock (Syscall.select fd) ≡ got (suc n)
    → os.answers (os.clock + 1) (Syscall.recv fd) ≡ got 0
    → TcpSock.recv_round s fd os
      ≡ (ended, logged (Syscall.recv fd) (got 0) (logged (Syscall.select fd) (got (suc n)) os))
unfolding TcpSock.recv_round arrival
recv_round_closed s fd os n ready closed = simp (ready, closed, TcpSock.recv_round, arrival)

-- Where the other player has closed the connection, which `recv` tells by 0, the receiving thread
-- ends and nothing else changes: the line stays up, the socket counts as connected, and the next
-- client is turned away without a RING.
pub sock_recv_step_closed :
    (s : TcpSock) (fd client_fd : ℕ) (c : Context) (n : ℕ)
    → TcpSock.is_connected s ≡ true
    → c.sock ≡ some s
    → c.os.answers c.os.clock (Syscall.select fd) ≡ got (suc n)
    → c.os.answers (c.os.clock + 1) (Syscall.recv fd) ≡ got 0
    → let (more, d) = sock_recv_step s fd c in
      (more ≡ false)
      × (d ≡ record c { os = d.os })
      × (listen_step s client_fd d ≡ record c { os = perform (Syscall.close client_fd) d.os })
unfolding sock_recv_step receive
sock_recv_step_closed s fd client_fd c n on e ready closed =
    let r = recv_round_closed s fd c.os n ready closed in
    let os2 = logged (Syscall.recv fd) (got 0) (logged (Syscall.select fd) (got (suc n)) c.os) in
    rw r (refl, refl, listen_step_busy s client_fd (record c { os = os2 }) on e)
