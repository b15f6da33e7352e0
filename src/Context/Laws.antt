-- ===== src/Context/Laws.antt =====
-- What the callbacks of src/main_app.cpp and `Modem::handle_disconnect` do to the shared state.
use me56ps2_emulator.Prelude.{
  ◌==◌, ℕ, ◌≢◌, [], if◌then◌else◌, append-nil, ◌≡◌, refl, ap, sym, ◌∙◌, inl, inr, false, Option,
  none, some, ◌++◌, take, Bool-cases,
}
use me56ps2_emulator.Text.{bytes, Text}
use me56ps2_emulator.RingBuffer.Inv.{IsValid, contents}
use me56ps2_emulator.RingBuffer.Bulk.{room, enqueue_lem}
use me56ps2_emulator.TcpSock
use me56ps2_emulator.TcpSock.{TcpSock}
use me56ps2_emulator.PtyDev
use me56ps2_emulator.PtyDev.{PtyDev}
use me56ps2_emulator.Os.{nonzero}
use me56ps2_emulator.Context.{
  true, listen_step, ring_callback, Context, transmit, close_sock, close_pty, handle_disconnect,
}

abbrev pub SockDown : Option TcpSock → Type 0
SockDown none = Unit {0}
SockDown (some s) = TcpSock.is_connected s ≡ false

abbrev pub PtyDown : Option PtyDev → Type 0
PtyDown none = Unit {0}
PtyDown (some p) = PtyDev.is_connected p ≡ false

-- the line is down on all sides
pub record Down (c : Context) : Type 0 where
  pub line : c.connected ≡ false
  pub sock_down : SockDown c.sock
  pub pty_down : PtyDown c.pty

-- the parts of the state that a hang-up leaves alone
abbrev pub SameRest : Context → Context → Type 0
SameRest c d = (d.usb_tx_buffer ≡ c.usb_tx_buffer) × (d.echo ≡ c.echo)

close_sock_lem :
    (sock : Option TcpSock) (c : Context)
    → c.sock ≡ sock
    → let d = close_sock sock c in
      SockDown d.sock × (d.pty ≡ c.pty) × (d.connected ≡ c.connected) × SameRest c d
unfolding close_sock
close_sock_lem none c e = simp e (tt, refl, refl, (refl, refl))
close_sock_lem (some s) c e = elim (Bool-cases (TcpSock.is_connected s)) [
  | inl on ↦
      simp (on, close_sock) ((TcpSock.Laws.disconnect_lem s c.os).0, refl, refl, (refl, refl))
  | inr off ↦ simp (off, close_sock, e) (refl, refl, refl, (refl, refl))
]

close_pty_lem :
    (pty : Option PtyDev) (c : Context)
    → c.pty ≡ pty
    → let d = close_pty pty c in
      PtyDown d.pty × (d.sock ≡ c.sock) × (d.connected ≡ c.connected) × SameRest c d
unfolding close_pty
close_pty_lem none c e = simp e (tt, refl, refl, (refl, refl))
close_pty_lem (some p) c e = elim (Bool-cases (PtyDev.is_connected p)) [
  | inl on ↦ simp (on, close_pty) ((PtyDev.Laws.disconnect_lem p c.os).0, refl, refl, (refl, refl))
  | inr off ↦ simp (off, close_pty, e) (refl, refl, refl, (refl, refl))
]

-- Hanging up takes the line down on all sides, whatever state it is in, and loses no byte that
-- waits for the game.
pub handle_disconnect-Down :
    (c : Context) → Down (handle_disconnect c) × SameRest c (handle_disconnect c)
unfolding handle_disconnect
handle_disconnect-Down c =
    let c1 = record c { connected = false } in
    let c2 = close_sock c1.sock c1 in
    let (s, p, k, (b, e)) = close_sock_lem c1.sock c1 refl in
    let (p', s', k', (b', e')) = close_pty_lem c2.pty c2 refl in
    (record { line = k' ∙ k; sock_down = rw s' s; pty_down = p' }, (b' ∙ b, e' ∙ e))

close_sock_down : (sock : Option TcpSock) (c : Context) → SockDown sock → close_sock sock c ≡ c
unfolding close_sock
close_sock_down none c h = refl
close_sock_down (some s) c h = simp (h, close_sock)

close_pty_down : (pty : Option PtyDev) (c : Context) → PtyDown pty → close_pty pty c ≡ c
unfolding close_pty
close_pty_down none c h = refl
close_pty_down (some p) c h = simp (h, close_pty)

handle_disconnect_of_Down : (c : Context) → Down c → handle_disconnect c ≡ c
unfolding handle_disconnect
handle_disconnect_of_Down c h =
    let c1 = record c { connected = false } in
    let same : c1 ≡ c = ap (λ b. record c { connected = b }) (sym h.line) in
    let e = close_sock_down c.sock c1 h.sock_down in
    ap (λ d. close_pty d.pty d) e ∙ close_pty_down c.pty c1 h.pty_down ∙ same

-- Hanging up again does nothing: no descriptor is closed twice.
pub handle_disconnect_twice :
    (c : Context) → handle_disconnect (handle_disconnect c) ≡ handle_disconnect c
handle_disconnect_twice c =
    handle_disconnect_of_Down (handle_disconnect c) (handle_disconnect-Down c).0

-- Bytes for the game are put behind those that wait, as many as there is room for, and the buffer
-- stays valid.
pub transmit_lem :
    (s : Text) (c : Context)
    → IsValid c.usb_tx_buffer
    → let d = transmit s c in
      IsValid d.usb_tx_buffer
      × (contents d.usb_tx_buffer ≡ contents c.usb_tx_buffer ++ take (room c.usb_tx_buffer) s)
unfolding transmit
transmit_lem s c v = let (n, q) = enqueue_lem c.usb_tx_buffer s v in (q.0, q.3)

close_sock-answers :
    (sock : Option TcpSock) (c : Context) → (close_sock sock c).os.answers ≡ c.os.answers
unfolding close_sock
close_sock-answers none c = refl
close_sock-answers (some s) c = elim (Bool-cases (TcpSock.is_connected s)) [
  | inl on ↦ simp (on, close_sock) (TcpSock.Laws.disconnect-answers s c.os)
  | inr off ↦ simp (off, close_sock)
]

close_pty-answers :
    (pty : Option PtyDev) (c : Context) → (close_pty pty c).os.answers ≡ c.os.answers
unfolding close_pty
close_pty-answers none c = refl
close_pty-answers (some p) c = elim (Bool-cases (PtyDev.is_connected p)) [
  | inl on ↦ simp (on, close_pty) (PtyDev.Laws.disconnect-answers p c.os)
  | inr off ↦ simp (off, close_pty)
]

pub handle_disconnect-answers : (c : Context) → (handle_disconnect c).os.answers ≡ c.os.answers
unfolding handle_disconnect
handle_disconnect-answers c =
    let c1 = record c { connected = false } in
    let c2 = close_sock c1.sock c1 in close_pty-answers c2.pty c2 ∙ close_sock-answers c1.sock c1

-- Hanging up leaves the terminal device where it is.
close_pty_there :
    (p : PtyDev) (c : Context)
    → c.pty ≡ some p
    → (q : PtyDev) × ((close_pty (some p) c).pty ≡ some q)
unfolding close_pty
close_pty_there p c e = elim (Bool-cases (PtyDev.is_connected p)) [
  | inl on ↦ simp (on, close_pty) (_, refl)
  | inr off ↦ simp (off, close_pty) (p, e)
]

pub handle_disconnect_there :
    (p : PtyDev) (c : Context)
    → c.pty ≡ some p
    → (q : PtyDev) × ((handle_disconnect c).pty ≡ some q)
unfolding handle_disconnect
handle_disconnect_there p c e =
    let c1 = record c { connected = false } in
    let c2 = close_sock c1.sock c1 in
    let (_, same, _, _) = close_sock_lem c1.sock c1 refl in
    rw (same ∙ e) (close_pty_there p c2 (same ∙ e))

-- A client that `accept` hands over on a descriptor other than 0: the game is told RING, as far as
-- there is room in a valid buffer, exactly if there was no connection, and in both cases there is one
-- afterwards; the line is as it was.
pub listen_step_lem :
    (s : TcpSock) (client_fd : ℕ) (c : Context)
    → client_fd ≢ 0
    → IsValid c.usb_tx_buffer
    → let d = listen_step s client_fd c in
      (s' : TcpSock) × (d.sock ≡ some s')
      × (TcpSock.is_connected s' ≡ true)
      × (d.connected ≡ c.connected)
      × IsValid d.usb_tx_buffer
      × (contents d.usb_tx_buffer
          ≡ contents c.usb_tx_buffer
            ++ (if TcpSock.is_connected s
                then []
                else take (room c.usb_tx_buffer) (bytes "RING\r\n")))
unfolding listen_step ring_callback transmit TcpSock.accept_client TcpSock.is_connected
listen_step_lem s client_fd c ne v = elim (Bool-cases (s.comm_fd == 0)) [
  | inl off ↦
      let (n, q) = enqueue_lem c.usb_tx_buffer (bytes "RING\r\n") v in
      simp (off, listen_step, TcpSock.accept_client)
        (_, refl, simp (nonzero client_fd ne), refl, q.0, q.3)
  | inr on ↦
      simp (on, listen_step, TcpSock.accept_client)
        (s, refl, simp on, refl, v, sym (append-nil (contents c.usb_tx_buffer)))
]
