-- ===== src/Modem/Line/Online.antt =====
-- The on-line loop (Modem/Line.antt) hands over what the game sends.
use me56ps2_emulator.Prelude.{
  not-false, ◌≡◌, refl, sym, ℕ, ◌≤◌, true, false, some, [], ◌∷◌, ◌++◌, append-nil, length,
}
use me56ps2_emulator.Text.{Text}
use me56ps2_emulator.TcpSock
use me56ps2_emulator.TcpSock.{TcpSock}
use me56ps2_emulator.TcpSock.Laws.{Sends, sent, send_from-sent}
use me56ps2_emulator.PtyDev
use me56ps2_emulator.PtyDev.{PtyDev}
use me56ps2_emulator.PtyDev.Send.{written, send_from-written}
use me56ps2_emulator.Os.{Os, ok}
use me56ps2_emulator.Context.{Context}
use me56ps2_emulator.Modem.Line.{deliver, online_loop}

-- On line with the provider, the buffer goes to the terminal, all of it and in order, and is left
-- empty; nothing but the system around changes. Each call must take a byte at least.
pub online_loop-written :
    (fuel : ℕ) (buffer : Text) (c : Context) (p : PtyDev)
    → c.connected ≡ true
    → c.pty ≡ some p
    → PtyDev.is_connected p ≡ true
    → length buffer ≤ fuel
    → Sends c.os
    → (os' : Os) × (online_loop fuel buffer c ≡ ok ([], record c { os = os' }))
      × (written p.master_fd os'.trace ≡ written p.master_fd c.os.trace ++ buffer)
unfolding online_loop deliver PtyDev.is_connected PtyDev.send
online_loop-written fuel [] c p on e up l s = (c.os, refl, sym (append-nil _))
online_loop-written fuel (x ∷ buffer) c p on e up l s =
    let (os', q, w) = send_from-written fuel p.master_fd (x ∷ buffer) c.os l s in
    (os', simp (on, e, not-false _ up, q, online_loop, deliver, PtyDev.send), w)

-- On line with another player, the buffer goes to the socket likewise.
pub online_loop-sent :
    (fuel : ℕ) (buffer : Text) (c : Context) (p : PtyDev) (t : TcpSock)
    → c.connected ≡ true
    → c.pty ≡ some p
    → PtyDev.is_connected p ≡ false
    → c.sock ≡ some t
    → TcpSock.is_connected t ≡ true
    → length buffer ≤ fuel
    → Sends c.os
    → (os' : Os) × (online_loop fuel buffer c ≡ ok ([], record c { os = os' }))
      × (sent t.comm_fd os'.trace ≡ sent t.comm_fd c.os.trace ++ buffer)
unfolding online_loop deliver TcpSock.is_connected TcpSock.send
online_loop-sent fuel [] c p t on e down f up l s = (c.os, refl, sym (append-nil _))
online_loop-sent fuel (x ∷ buffer) c p t on e down f up l s =
    let (os', q, w) = send_from-sent fuel t.comm_fd (x ∷ buffer) c.os l s in
    (os', simp (on, e, down, f, not-false _ up, q, online_loop, deliver, TcpSock.send), w)
