-- ===== src/System/Steps.antt =====
-- Every turn of a thread (System.antt) goes through and keeps the state healthy.
use me56ps2_emulator.Usb.Device.{ioctl}
use me56ps2_emulator.Usb.Request.Laws.{ioctl_ends}
use me56ps2_emulator.Modem.Line.Sending.{Served}
use me56ps2_emulator.Modem.Line.{framing}
use me56ps2_emulator.Context.Healthy.{
  with_os-Grown, SameAnswers, listen_round-Grown, handle_disconnect-Grown, pty_recv_step-Grown,
  sock_recv_step-Grown, Grown-refl, Grown, Healthy,
}
use me56ps2_emulator.Prelude.{
  ℕ, ◌≢◌, inl, inr, Option-cases, Bool, take-append-drop, ap₂, ◌≡◌, refl, ap, sym, ◌∙◌, Option,
  none, some, [], ◌++◌, take, drop, append-nil, append_assoc,
}
use me56ps2_emulator.Text.{Text}
use me56ps2_emulator.Os.{fail, Os, Syscall, EndsIn-if, ok, EndsIn-map, EndsIn, EndsIn-bind}
use me56ps2_emulator.Context.{listen_round, pty_recv_step, sock_recv_step, Context}
use me56ps2_emulator.RingBuffer.Inv.{IsValid, contents}
use me56ps2_emulator.Modem.At.{Model}
use me56ps2_emulator.Modem.Line.Safe.{bulk_out_round-Served, NoBareDial, lines}
use me56ps2_emulator.System.{
  sender_of, on_pty, TcpSock, on_sock, PtyDev, System, Event, packet_comes, packet_goes, sock_reads,
  pty_reads, client_comes, hangs_up, turn, game_sends, game_reads, step, next_packet, write_packet,
  client_turn,
}

-- all that the game has read or will read of what is there
abbrev pub stream : System → Text
stream s = s.heard ++ contents s.context.usb_tx_buffer

-- The state is healthy, and the game's stream has only been added to.
abbrev pub Continues : System → System → Type 0
Continues s t = Healthy t.context × ((added : Text) × (stream t ≡ stream s ++ added))

-- The packet's framing is right, and the game completes no command line that is a bare `ATD`.
abbrev pub Allowed : Bool → Model → Event → System → Type 0
Allowed signed_char model (packet_comes ep_num received) s =
    (payload : Text) × (framing signed_char model received ≡ ok payload)
    × NoBareDial model (lines model [] (s.buffer ++ payload))
Allowed signed_char model _ s = Unit {0}

on_sock-Grown :
    (f : TcpSock → Context → Context) (sock : Option TcpSock) (c : Context)
    → ((s : TcpSock) → Grown c (f s c))
    → Healthy c
    → Grown c (elim sock [ none ↦ c | some s ↦ f s c ])
on_sock-Grown f none c g h = Grown-refl c h
on_sock-Grown f (some s) c g h = g s

on_pty-Grown :
    (f : PtyDev → Context → Context) (pty : Option PtyDev) (c : Context)
    → ((p : PtyDev) → Grown c (f p c))
    → Healthy c
    → Grown c (elim pty [ none ↦ c | some p ↦ f p c ])
on_pty-Grown f none c g h = Grown-refl c h
on_pty-Grown f (some p) c g h = g p

turn-Grown : (event : Event) (c : Context) → Healthy c → Grown c (turn event c)
unfolding turn on_sock on_pty
turn-Grown (packet_comes ep_num received) c h = Grown-refl c h
turn-Grown (packet_goes ep_num) c h = Grown-refl c h
turn-Grown client_comes c h = Grown-refl c h
turn-Grown (sock_reads fd) c h =
    on_sock-Grown (λ s c. (sock_recv_step s fd c).1) c.sock c (λ s. sock_recv_step-Grown s fd c h) h
turn-Grown (pty_reads fd) c h =
    on_pty-Grown (λ p c. (pty_recv_step p fd c).1) c.pty c (λ p. pty_recv_step-Grown p fd c h) h
turn-Grown hangs_up c h = handle_disconnect-Grown c h

Grown-Continues : (s t : System) → t.heard ≡ s.heard → Grown s.context t.context → Continues s t
Grown-Continues s t e (h, (added, f)) =
    (h, (added, ap₂ ◌++◌ e f ∙ sym (append_assoc s.heard (contents s.context.usb_tx_buffer) added)))

client_turn-Grown : (c : Context) → Healthy c → EndsIn (Grown c) (client_turn c)
unfolding client_turn
client_turn-Grown c h = elim (Option-cases c.sock) [
  | inl e ↦ simp (e, client_turn) (Grown-refl c h)
  | inr (s, e) ↦
      simp (e, client_turn)
        (EndsIn-if (Grown c) s.listen_thread_ptr (listen_round s c) (ok c)
          (listen_round-Grown s c h) (Grown-refl c h))
]

pub game_sends-Continues :
    (signed_char : Bool) (model : Model) (ep_num : ℕ) (received : Text) (s : System)
    → Allowed signed_char model (packet_comes ep_num received) s
    → Healthy s.context
    → EndsIn
        (λ t. Continues s t × Served s.context t.context)
        (game_sends signed_char model ep_num received s)
unfolding game_sends
game_sends-Continues signed_char model ep_num received s (payload, framed, polite) h =
    let Goal : System → Type 0 = λ t. Continues s t × Served s.context t.context in
    EndsIn-bind (λ r. SameAnswers s.context.os r.1) Goal
      (ioctl (Syscall.ep_read ep_num) s.context.os) _
      (ioctl_ends (Syscall.ep_read ep_num) s.context.os (h.able.ep_reads s.context.os.clock ep_num))
      (λ (_, os1) same.
        let c = record s.context { os = os1 } in
        EndsIn-bind (λ r. Served c r.1) Goal _ _
          (bulk_out_round-Served model signed_char received payload s.buffer c framed polite
            (with_os-Grown s.context os1 h same).0)
          (λ r g. (
            Grown-Continues s (record s { buffer = r.0; context = r.1 }) refl g.grown,
            record { grown = g.grown; up = g.up },
          )))

turned :
    (event : Event) (s : System)
    → Healthy s.context
    → Continues s (record s { context = turn event s.context })
turned event s h =
    Grown-Continues s (record s { context = turn event s.context }) refl
      (turn-Grown event s.context h)

-- What a packet takes off the buffer the game has read.
pub next_packet_lem :
    (model : Model) (s : System)
    → IsValid s.context.usb_tx_buffer
    → let t = (next_packet model s).1 in
      let r' = t.context.usb_tx_buffer in
      IsValid r'
      × (contents r' ≡ drop (sender_of model).limit (contents s.context.usb_tx_buffer))
      × (stream t ≡ stream s)
unfolding next_packet
next_packet_lem model s v =
    let sender = sender_of model in
    let c = s.context in
    let waiting = contents c.usb_tx_buffer in
    let t = sender.read_send c.connected s.last_dcd c.usb_tx_buffer v in
    let (v', d) = sender.send_rest c.connected s.last_dcd c.usb_tx_buffer v in
    (
      v',
      d,
      ap₂ (λ l m. (s.heard ++ l) ++ m) t d
          ∙ append_assoc s.heard (take sender.limit waiting) (drop sender.limit waiting)
          ∙ ap (◌++◌ s.heard) (take-append-drop sender.limit waiting),
    )

abbrev pub with_os : Os → System → System
with_os os' t = record t { context = record t.context { os = os' } }

-- A transfer that the system grants changes nothing but the system.
pub write_packet_lem :
    (ep_num : ℕ) (packet : Option Text) (t : System)
    → ((s : Text) → t.context.os.answers t.context.os.clock (Syscall.ep_write ep_num s) ≢ fail)
    → EndsIn
        (λ u. (os' : Os) × SameAnswers t.context.os os' × (u ≡ with_os os' t))
        (write_packet ep_num packet t)
unfolding write_packet
write_packet_lem ep_num none t granted = (t.context.os, refl, refl)
write_packet_lem ep_num (some packet) t granted =
    EndsIn-bind (λ r. SameAnswers t.context.os r.1)
      (λ u. (os' : Os) × SameAnswers t.context.os os' × (u ≡ with_os os' t))
      (ioctl (Syscall.ep_write ep_num packet) t.context.os) _
      (ioctl_ends (Syscall.ep_write ep_num packet) t.context.os (granted packet))
      (λ r same. (r.1, same, refl))

-- A turn of the thread for bytes to the game is its packet, with the system behind the transfer.
pub game_reads_lem :
    (model : Model) (ep_num : ℕ) (s : System)
    → ((k : ℕ) (packet : Text) → s.context.os.answers k (Syscall.ep_write ep_num packet) ≢ fail)
    → EndsIn
        (λ u. (os' : Os) × SameAnswers s.context.os os' × (u ≡ with_os os' (next_packet model s).1))
        (game_reads model ep_num s)
unfolding game_reads next_packet
game_reads_lem model ep_num s granted =
    write_packet_lem ep_num (next_packet model s).0 (next_packet model s).1
      (granted s.context.os.clock)

game_reads-Continues :
    (model : Model) (ep_num : ℕ) (s : System)
    → Healthy s.context
    → EndsIn (Continues s) (game_reads model ep_num s)
unfolding next_packet
game_reads-Continues model ep_num s h =
    let (v, d, e) = next_packet_lem model s h.buffer in
    EndsIn-map
      (λ u. (os' : Os) × SameAnswers s.context.os os' × (u ≡ with_os os' (next_packet model s).1))
      (Continues s) _ (game_reads_lem model ep_num s (λ k packet. h.able.ep_writes k ep_num packet))
      (λ u (os', same, at_u).
        let healthy : Healthy (with_os os' (next_packet model s).1).context = record {
          buffer = v;
          terminal = h.terminal;
          able = rw same h.able;
        } in
        rw at_u (healthy, ([], e ∙ sym (append-nil (stream s)))))

module _ (signed_char : Bool) (model : Model) where
  -- On every modem, each turn goes through from a healthy state, where the packet's framing is right
  -- and the game completes no bare `ATD`: nothing throws or goes on for ever, the state is healthy
  -- again, and the game's stream, what it has read and what waits for it, is at most added to.
  -- Healthy: the buffer is valid, there is a terminal device, `socket`, `accept` and the transfers of
  -- the game's packets do not fail, and a call that sends takes a byte or fails.
  pub step-Continues :
      (event : Event) (s : System)
      → Allowed signed_char model event s
      → Healthy s.context
      → EndsIn (Continues s) (step signed_char model event s)
  unfolding step
  step-Continues (packet_comes ep_num received) s allowed h =
      EndsIn-map (λ t. Continues s t × Served s.context t.context) (Continues s) _
        (game_sends-Continues signed_char model ep_num received s allowed h) (λ t g. g.0)
  step-Continues (packet_goes ep_num) s allowed h = game_reads-Continues model ep_num s h
  step-Continues (sock_reads fd) s allowed h = turned (sock_reads fd) s h
  step-Continues (pty_reads fd) s allowed h = turned (pty_reads fd) s h
  step-Continues client_comes s allowed h =
      EndsIn-bind (Grown s.context) (Continues s) (client_turn s.context) _
        (client_turn-Grown s.context h) (λ c g. Grown-Continues s (record s { context = c }) refl g)
  step-Continues hangs_up s allowed h = turned hangs_up s h
