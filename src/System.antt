-- ===== src/System.antt =====
-- The emulator as a whole, once its threads run (src/app_context.h and the threads of the modem, the
-- socket and the terminal): what one thread does in one turn is a step, in any order.
pub mod Steps
pub mod Reach
pub mod Line
pub mod Whole
pub mod Delivery
use me56ps2_emulator.PtyDev.{PtyDev}
use me56ps2_emulator.TcpSock.{TcpSock}
use me56ps2_emulator.Prelude.{ℕ, suc, Bool, Option, none, some, if◌then◌else◌, ◌++◌, length}
use me56ps2_emulator.Text.{Text}
use me56ps2_emulator.Os.{Syscall, Outcome, ok, ◌>>=◌}
use me56ps2_emulator.Usb.Device.{ioctl}
use me56ps2_emulator.Context.{
  Context, listen_round, sock_recv_step, pty_recv_step, handle_disconnect,
}
use me56ps2_emulator.Modem.At.{Model}
use me56ps2_emulator.Modem.Line.{bulk_out_round}
use me56ps2_emulator.Modem.BulkIn.Rounds.{Sender}
use me56ps2_emulator.Modem.BulkIn.Senders.{sender_of}

-- The shared state, with what the threads keep for themselves: `buffer` of the thread for bytes from
-- the game, `last_dcd` of the one for bytes to the game; `heard` is all that the game has read.
pub record System : Type 0 where
  pub context : Context
  pub buffer : Text
  pub last_dcd : Bool
  pub heard : Text

-- The turns: a packet comes from the game, a packet goes to the game, each on its endpoint; the
-- thread that reads a descriptor of the socket or of the terminal looks at it; `listen_thread` takes
-- a client; and a control request or command hangs up.
pub data Event : Type 0 where
  packet_comes : ℕ → Text → Event
  packet_goes sock_reads pty_reads : ℕ → Event
  client_comes hangs_up : Event

on_sock : (TcpSock → Context → Context) → Context → Context
on_sock f c = elim c.sock [ none ↦ c | some s ↦ f s c ]

on_pty : (PtyDev → Context → Context) → Context → Context
on_pty f c = elim c.pty [ none ↦ c | some p ↦ f p c ]

-- The threads of the socket are there if it is.
pub turn : Event → Context → Context
unfolding on_sock on_pty
turn (sock_reads fd) c = on_sock (λ s c. (sock_recv_step s fd c).1) c
turn (pty_reads fd) c = on_pty (λ p c. (pty_recv_step p fd c).1) c
turn hangs_up c = handle_disconnect c
turn _ c = c

-- a turn of `listen_thread`, which is there for a server
unfoldable pub client_turn : Context → Outcome Context
client_turn c = elim c.sock [
  | none ↦ ok c
  | some s ↦ if s.listen_thread_ptr then listen_round s c else ok c
]

-- A turn of the thread for bytes from the game: `ep_read`, which gives `received` or throws, and what
-- is done with them. `signed_char` tells of the host's `char`.
pub game_sends : Bool → Model → ℕ → Text → System → Outcome System
game_sends signed_char model ep_num received s =
    ioctl (Syscall.ep_read ep_num) s.context.os >>= λ (_, os1).
    bulk_out_round signed_char model received (s.buffer, record s.context { os = os1 }) >>= λ r.
    ok (record s { buffer = r.0; context = r.1 })

-- The packet that a turn of the thread for bytes to the game makes, if any, and the state once the
-- game has read it.
unfoldable pub next_packet : Model → System → Option Text × System
next_packet model s =
    let sender = sender_of model in
    let c = s.context in
    let (packet, last_dcd', r') = sender.send c.connected s.last_dcd c.usb_tx_buffer in
    (
      packet,
      record s {
        context = record c { usb_tx_buffer = r' };
        last_dcd = last_dcd';
        heard = s.heard ++ sender.read packet;
      },
    )

-- `ep_write`, where there is a packet; it throws where the transfer fails.
unfoldable pub write_packet : ℕ → Option Text → System → Outcome System
write_packet ep_num none s = ok s
write_packet ep_num (some packet) s = ioctl (Syscall.ep_write ep_num packet) s.context.os >>= λ r.
    ok (record s { context = record s.context { os = r.1 } })

-- a turn of the thread for bytes to the game
unfoldable pub game_reads : Model → ℕ → System → Outcome System
game_reads model ep_num s = let (packet, t) = next_packet model s in write_packet ep_num packet t

unfoldable pub step : Bool → Model → Event → System → Outcome System
unfolding game_sends turn
step signed_char model (packet_comes ep_num received) s =
    game_sends signed_char model ep_num received s
step signed_char model (packet_goes ep_num) s = game_reads model ep_num s
step signed_char model client_comes s = client_turn s.context >>= λ c. ok (record s { context = c })
step signed_char model event s = ok (record s { context = turn event s.context })
