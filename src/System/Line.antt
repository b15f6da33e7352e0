-- ===== src/System/Line.antt =====
-- What a turn (System.antt) does to the line, `connected` of src/app_context.h.
use me56ps2_emulator.Prelude.{
  ◌≡◌, ◌⊎◌, ap, inl, inr, Option-cases, refl, Bool, true, false, ℕ, Option, none, some,
  if◌then◌else◌,
}
use me56ps2_emulator.TcpSock
use me56ps2_emulator.TcpSock.{TcpSock}
use me56ps2_emulator.PtyDev.{PtyDev}
use me56ps2_emulator.Os.{
  ok, EndsIn-if, Os, Syscall, got, logged, Ret-cases, EndsIn-bind, EndsIn, EndsIn-map,
}
use me56ps2_emulator.Context.{
  listen_round, Context, transmit, ring_callback, listen_step, sock_recv_step, pty_recv_step,
}
use me56ps2_emulator.Context.Laws.{handle_disconnect-Down}
use me56ps2_emulator.Context.Readers.{sock_recv_step_lem, pty_recv_step_lem}
use me56ps2_emulator.Context.Healthy.{SameAnswers, Healthy}
use me56ps2_emulator.Modem.At.{Model}
use me56ps2_emulator.Modem.Line.Sending.{Served}
use me56ps2_emulator.System.{
  System, Event, packet_comes, packet_goes, sock_reads, pty_reads, client_comes, hangs_up, turn,
  on_sock, on_pty, client_turn, next_packet, step,
}
use me56ps2_emulator.System.Steps.{
  with_os, game_reads_lem, Continues, Allowed, game_sends-Continues,
}

rings_line :
    (rings : Bool) (c : Context) → (if rings then ring_callback c else c).connected ≡ c.connected
unfolding ring_callback transmit
rings_line true c = refl
rings_line false c = refl

listen_step_line :
    (s : TcpSock) (fd : ℕ) (c : Context) → (listen_step s fd c).connected ≡ c.connected
unfolding listen_step
listen_step_line s fd c =
    let (rings, s', os') = TcpSock.accept_client s fd c.os in
    rings_line rings (record c { sock = some s'; os = os' })

on_sock_line :
    (f : TcpSock → Context → Context) (sock : Option TcpSock) (c : Context)
    → ((s : TcpSock) → (f s c).connected ≡ c.connected)
    → let d : Context = elim sock [ none ↦ c | some s ↦ f s c ] in d.connected ≡ c.connected
on_sock_line f none c h = refl
on_sock_line f (some s) c h = h s

on_pty_line :
    (f : PtyDev → Context → Context) (pty : Option PtyDev) (c : Context)
    → ((p : PtyDev) → (f p c).connected ≡ c.connected)
    → let d : Context = elim pty [ none ↦ c | some p ↦ f p c ] in d.connected ≡ c.connected
on_pty_line f none c h = refl
on_pty_line f (some p) c h = h p

SameLine : Context → Context → Type 0
SameLine c d = d.connected ≡ c.connected

listen_round_line : (s : TcpSock) (c : Context) → Healthy c → EndsIn (SameLine c) (listen_round s c)
unfolding listen_round SameLine
listen_round_line s c h = elim (Ret-cases (c.os.answers c.os.clock (Syscall.accept s.server_fd))) [
  | inl refused ↦ absurd (h.able.accepts c.os.clock s.server_fd refused)
  | inr (fd, accepted) ↦
      simp (accepted, listen_round)
        (listen_step_line s fd
          (record c { os = logged (Syscall.accept s.server_fd) (got fd) c.os }))
]

client_turn_line : (c : Context) → Healthy c → EndsIn (SameLine c) (client_turn c)
unfolding client_turn SameLine
client_turn_line c h = elim (Option-cases c.sock) [
  | inl e ↦ simp (e, client_turn) refl
  | inr (s, e) ↦
      simp (e, client_turn)
        (EndsIn-if (SameLine c) s.listen_thread_ptr (listen_round s c) (ok c)
          (listen_round_line s c h) refl)
]

-- The game's packets may take the line up and never down, a hang-up takes it down, and the other
-- turns leave it.
abbrev pub LineAfter : Event → System → System → Type 0
LineAfter (packet_comes ep_num received) s t =
    (s.context.connected ≡ false) ⊎ (t.context.connected ≡ true)
LineAfter hangs_up s t = t.context.connected ≡ false
LineAfter _ s t = t.context.connected ≡ s.context.connected

module _ (signed_char : Bool) (model : Model) where
  -- On every modem, from a healthy state, where the packet's framing is right and no command line is
  -- a bare `ATD`: each turn goes through, and only the game's packets take the line up, only a hang-up
  -- takes it down, and does so always. Healthy is as for `step-Continues`: `accept` and the transfers
  -- of packets do not fail.
  pub step-LineAfter :
      (event : Event) (s : System)
      → Allowed signed_char model event s
      → Healthy s.context
      → EndsIn (LineAfter event s) (step signed_char model event s)
  unfolding step turn on_sock on_pty next_packet SameLine
  step-LineAfter (packet_comes ep_num received) s allowed h =
      EndsIn-map (λ t. Continues s t × Served s.context t.context)
        (LineAfter (packet_comes ep_num received) s) _
        (game_sends-Continues signed_char model ep_num received s allowed h) (λ t g. g.1.up)
  step-LineAfter (packet_goes ep_num) s allowed h =
      EndsIn-map
        (λ u. (os' : Os) × SameAnswers s.context.os os' × (u ≡ with_os os' (next_packet model s).1))
        (LineAfter (packet_goes ep_num) s) _
        (game_reads_lem model ep_num s (λ k packet. h.able.ep_writes k ep_num packet))
        (λ u (os', same, at_u). ap (λ v. v.context.connected) at_u)
  step-LineAfter (sock_reads fd) s allowed h =
      on_sock_line (λ t c. (sock_recv_step t fd c).1) s.context.sock s.context
        (λ t. (sock_recv_step_lem fd s.context h.buffer t).1.2)
  step-LineAfter (pty_reads fd) s allowed h =
      on_pty_line (λ p c. (pty_recv_step p fd c).1) s.context.pty s.context
        (λ p. (pty_recv_step_lem fd s.context h.buffer p).1.2)
  step-LineAfter client_comes s allowed h =
      EndsIn-bind (SameLine s.context) (LineAfter client_comes s) (client_turn s.context) _
        (client_turn_line s.context h) (λ c e. e)
  step-LineAfter hangs_up s allowed h = (handle_disconnect-Down s.context).0.line
