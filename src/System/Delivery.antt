-- ===== src/System/Delivery.antt =====
-- How bytes from the other player get to the game (System.antt).
use me56ps2_emulator.Context.Healthy.{SameAnswers}
use native.Mathlib.Nat.{suc-mul}
use me56ps2_emulator.Prelude.{
  ◌≢◌, ◌≡◌, none, ℕ, zero, suc, ◌+◌, ◌*◌, ◌≤◌, Bool, true, List, [], ◌∷◌, ◌++◌, length, replicate,
  some, ap, sym, ◌∙◌, arith, take_all, length-append, length-drop, append-nil, append_assoc,
}
use me56ps2_emulator.Text.{Text}
use me56ps2_emulator.RingBuffer.Inv.{IsValid, contents}
use me56ps2_emulator.RingBuffer.Bulk.{room}
use me56ps2_emulator.Os.{Os, fail, EndsIn-bind, Outcome, ok, ◌>>=◌, EndsIn, Syscall}
use me56ps2_emulator.Receive.{Arrival}
use me56ps2_emulator.TcpSock
use me56ps2_emulator.TcpSock.{TcpSock}
use me56ps2_emulator.Context.{Context, sock_recv_step}
use me56ps2_emulator.Context.Readers.{
  sock_recv_round-answers, receive_os, Passed, payload, heard, sock_recv_step_lem,
}
use me56ps2_emulator.Modem.At.{Model}
use me56ps2_emulator.Modem.BulkIn.Rounds.{nothing_left}
use me56ps2_emulator.Modem.BulkIn.Senders.{sender_of}
use me56ps2_emulator.System.{
  next_packet, System, Event, packet_goes, sock_reads, game_reads, step, turn, on_sock,
}
use me56ps2_emulator.System.Steps.{stream, next_packet_lem, game_reads_lem, with_os}

sock_turn :
    (fd : ℕ) (sock : TcpSock) (c : Context)
    → c.sock ≡ some sock
    → turn (sock_reads fd) c ≡ (sock_recv_step sock fd c).1
unfolding turn on_sock
sock_turn fd sock c there =
    ap (λ o. let d : Context = elim o [ none ↦ c | some s ↦ (sock_recv_step s fd c).1 ] in d) there

-- No transfer of a packet on this endpoint fails.
abbrev pub Transfers : ℕ → Os → Type 0
Transfers ep_num os = (k : ℕ) (packet : Text) → os.answers k (Syscall.ep_write ep_num packet) ≢ fail

sock_recv_step-answers :
    (sock : TcpSock) (fd : ℕ) (c : Context) → (sock_recv_step sock fd c).1.os.answers ≡ c.os.answers
unfolding sock_recv_step
sock_recv_step-answers sock fd c =
    let (a, os') = TcpSock.recv_round sock fd c.os in
    rw (receive_os a os' c) (sock_recv_round-answers sock fd c.os)

-- The game has read just this, and nothing waits for it.
abbrev pub HasRead : Text → System → Type 0
HasRead text t = (t.heard ≡ text) × (contents t.context.usb_tx_buffer ≡ [])

module _ (signed_char : Bool) (model : Model) where
  -- turns, one after the other
  unfoldable pub turns : List Event → System → Outcome System
  turns [] s = ok s
  turns (event ∷ events) s = step signed_char model event s >>= λ t. turns events t

  -- As many packets as it takes give the game all of its stream, if no transfer fails.
  packets_drain :
      (k ep_num : ℕ) (s : System)
      → Transfers ep_num s.context.os
      → IsValid s.context.usb_tx_buffer
      → length (contents s.context.usb_tx_buffer) ≤ k * (sender_of model).limit
      → EndsIn (HasRead (stream s)) (turns (replicate k (packet_goes ep_num)) s)
  unfolding turns step next_packet
  packets_drain zero ep_num s w v h =
      let e = nothing_left (contents s.context.usb_tx_buffer) (omega arith) in
      (sym (ap (◌++◌ s.heard) e ∙ append-nil s.heard), e)
  packets_drain (suc k) ep_num s w v h =
      let (v', d, e) = next_packet_lem model s v in
      let t = (next_packet model s).1 in
      let limit = (sender_of model).limit in
      let waiting = contents s.context.usb_tx_buffer in
      let few : length (contents t.context.usb_tx_buffer) ≤ k * limit =
        omega (arith, h, suc-mul k limit, ap length d, length-drop limit waiting) in
      EndsIn-bind (λ u. (os' : Os) × SameAnswers s.context.os os' × (u ≡ with_os os' t))
        (HasRead (stream s)) (game_reads model ep_num s) _ (game_reads_lem model ep_num s w)
        (λ u (os', same, at_u).
          let w' : Transfers ep_num os' = rw same w in
          let ih : EndsIn (HasRead (stream t))
              (turns (replicate k (packet_goes ep_num)) (with_os os' t)) =
            packets_drain k ep_num (with_os os' t) w' v' few in
          rw at_u (rw e at ih))

  arrived_drain :
      (k ep_num : ℕ) (a : Arrival) (s : System) (more : Bool) (d : Context)
      → Transfers ep_num d.os
      → Passed a s.context (more, d)
      → s.context.connected ≡ true
      → length (payload a) ≤ room s.context.usb_tx_buffer
      → length (contents s.context.usb_tx_buffer) + length (payload a) ≤ k * (sender_of model).limit
      → EndsIn
          (HasRead (stream s ++ payload a))
          (turns (replicate k (packet_goes ep_num)) (record s { context = d }))
  arrived_drain k ep_num a s more d w (_, _, v, e) on fits h =
      let waiting = contents s.context.usb_tx_buffer in
      let whole : contents d.usb_tx_buffer ≡ waiting ++ payload a =
        e ∙ simp (on, take_all (room s.context.usb_tx_buffer) (payload a) fits) in
      let few : length (contents d.usb_tx_buffer) ≤ k * (sender_of model).limit =
        omega (arith, h, ap length whole, length-append waiting (payload a)) in
      let all : stream (record s { context = d }) ≡ stream s ++ payload a =
        ap (◌++◌ s.heard) whole ∙ sym (append_assoc s.heard waiting (payload a)) in
      rw all at (packets_drain k ep_num (record s { context = d }) w v few)

  -- On every modem, with a valid buffer and the line up: the bytes that a round of the receiving
  -- thread gets from the other player, where there is room for them, and then as many packets as it
  -- takes, none of which fails, and the game has read what was there for it and then these bytes,
  -- with nothing lost.
  pub sock_reads_delivers :
      (k fd ep_num : ℕ) (sock : TcpSock) (s : System)
      → Transfers ep_num s.context.os
      → IsValid s.context.usb_tx_buffer
      → s.context.sock ≡ some sock
      → s.context.connected ≡ true
      → let arrived =
          payload (heard (TcpSock.is_connected sock) (Syscall.recv fd) fd s.context.os) in
        length arrived ≤ room s.context.usb_tx_buffer
        → length (contents s.context.usb_tx_buffer) + length arrived ≤ k * (sender_of model).limit
        → EndsIn
            (HasRead (stream s ++ arrived))
            (turns (sock_reads fd ∷ replicate k (packet_goes ep_num)) s)
  unfolding turns step
  sock_reads_delivers k fd ep_num sock s w v there on fits h =
      let a = heard (TcpSock.is_connected sock) (Syscall.recv fd) fd s.context.os in
      let (more, d) = sock_recv_step sock fd s.context in
      rw (sock_turn fd sock s.context there) (
        arrived_drain k ep_num a s more d (rw (sock_recv_step-answers sock fd s.context) w)
          (sock_recv_step_lem fd s.context v sock) on fits h)
