-- ===== src/Modem/At/Replies.antt =====
-- How `Modem::process_at` (src/modem.cpp) answers a command line.
use me56ps2_emulator.Isp.Laws.{setup_isp-answers}
use me56ps2_emulator.Prelude.{
  dec_lt, drop_all, append-nil, append_assoc, ◌+◌, ◌-◌, ◌≡◌, ◌≢◌, ◌⊎◌, refl, ap, ap₂, sym, ◌∙◌, inl,
  inr, ℕ, zero, suc, ◌≤◌, true, false, Option, none, some, [], ◌∷◌, ◌++◌, length, length-append,
  take, take-nil, drop, ltb, Bool-cases, arith, Option-cases, if◌then◌else◌,
}
use me56ps2_emulator.Text.{Text, bytes, starts_with_sound, starts_with}
use me56ps2_emulator.RingBuffer.{RingBuffer}
use me56ps2_emulator.RingBuffer.Inv.{IsValid, contents, count}
use me56ps2_emulator.RingBuffer.Bulk.{room, enqueue_lem}
use me56ps2_emulator.TcpSock
use me56ps2_emulator.TcpSock.{TcpSock}
use me56ps2_emulator.PtyDev
use me56ps2_emulator.PtyDev.{PtyDev}
use me56ps2_emulator.Os.{Syscall, EndsIn, EndsIn-bind, Os, fail, Ret-cases}
use me56ps2_emulator.Context.{Context, transmit}
use me56ps2_emulator.Modem.Address.{parse_address}
use me56ps2_emulator.Modem.Number.{is_ppp_number}
use me56ps2_emulator.Modem.At.{
  Model, Result, ext_reply, process_at_ext, echo_line, set_echo, command, dial, dial_ppp, dial_p2p,
  set_parsed, process_at, is_line, ok_reply, connect_reply, busy_reply, finish,
}

-- There still is a terminal device, and the system answers as before.
abbrev pub Equipped : Context → Context → Type 0
Equipped c d = ((p : PtyDev) × (d.pty ≡ some p)) × (d.os.answers ≡ c.os.answers)

-- What `command` leaves alone, and which replies go with which change of the line.
abbrev Verdict : Context → Result → Type 0
Verdict c (reply, enter_online, d) =
    (d.usb_tx_buffer ≡ c.usb_tx_buffer)
    × (d.connected ≡ c.connected)
    × Equipped c d
    × (((enter_online ≡ true) × (reply ≡ connect_reply))
        ⊎ ((enter_online ≡ false) × ((reply ≡ ok_reply) ⊎ (reply ≡ busy_reply))))

dial_ppp_lem : (p : PtyDev) (c : Context) → EndsIn (Verdict c) (dial_ppp (some p) c)
unfolding dial_ppp
dial_ppp_lem p c = elim (Bool-cases (PtyDev.connect p c.os).0) [
  | inl e ↦
      simp (e, dial_ppp)
        (
          refl,
          refl,
          ((_, refl), setup_isp-answers _ _ ∙ PtyDev.Laws.connect-answers p c.os),
          inl (refl, refl),
        )
  | inr e ↦
      simp (e, dial_ppp)
        (refl, refl, ((_, refl), PtyDev.Laws.connect-answers p c.os), inr (refl, inr refl))
]

connect_ends :
    (s : TcpSock) (os : Os)
    → os.answers os.clock Syscall.socket ≢ fail
    → EndsIn (λ r. r.2.answers ≡ os.answers) (TcpSock.connect s os)
unfolding TcpSock.connect
connect_ends s os ne = elim (Ret-cases (os.answers os.clock Syscall.socket)) [
  | inl e ↦ absurd (ne e)
  | inr (fd, e) ↦ elim (Ret-cases (os.answers (os.clock + 1) (Syscall.connect fd s.addr))) [
    | inl e' ↦ simp (e, e', TcpSock.connect) refl
    | inr (n, e') ↦ simp (e, e', TcpSock.connect) refl
  ]
]

dial_p2p_lem :
    (sock : Option TcpSock) (line : Text) (c : Context) (p : PtyDev)
    → 4 ≤ length line
    → c.pty ≡ some p
    → c.os.answers c.os.clock Syscall.socket ≢ fail
    → EndsIn (Verdict c) (dial_p2p sock line c)
unfolding dial_p2p
dial_p2p_lem none line c p l q ne = (refl, refl, ((p, q), refl), inr (refl, inr refl))
dial_p2p_lem (some s) line c p l q ne =
    let long : ltb (length line) 4 ≡ false = ground arith in
    let s' = set_parsed s (parse_address c.os.libc (drop 4 line)) in
    simp (long, dial_p2p)
      (EndsIn-bind (λ r. r.2.answers ≡ c.os.answers) (Verdict c) (TcpSock.connect s' c.os) _
        (connect_ends s' c.os ne)
        (λ r same. elim (Bool-cases r.0) [
          | inl done ↦ simp done (refl, refl, ((p, q), same), inl (refl, refl))
          | inr failed ↦ simp failed (refl, refl, ((p, q), same), inr (refl, inr refl))
        ]))

-- A command to dial that says no more is the only one that is too short for `substr`.
long_enough :
    (line : Text) → starts_with (bytes "ATD") line ≡ true → line ≢ bytes "ATD" → 4 ≤ length line
unfolding bytes
long_enough line h ne = elim (dec_lt 3 (length line)) [
  | yes l ↦ omega arith
  | no s ↦ absurd (
      ne (
        starts_with_sound (bytes "ATD") line h
        ∙ ap (◌++◌ (bytes "ATD")) (drop_all 3 line (omega arith))
        ∙ append-nil (bytes "ATD")))
]

dial_lem :
    (line : Text) (c : Context) (p : PtyDev)
    → 4 ≤ length line
    → c.pty ≡ some p
    → c.os.answers c.os.clock Syscall.socket ≢ fail
    → EndsIn (Verdict c) (dial line c)
unfolding dial
dial_lem line c p l e ne = elim (Bool-cases (is_ppp_number (drop 3 line))) [
  | inl ppp ↦ simp (ppp, e, dial) (dial_ppp_lem p c)
  | inr p2p ↦ simp (p2p, dial) (dial_p2p_lem c.sock line c p l e ne)
]

command_lem :
    (line : Text) (c : Context) (p : PtyDev)
    → line ≢ bytes "ATD"
    → c.pty ≡ some p
    → c.os.answers c.os.clock Syscall.socket ≢ fail
    → EndsIn (Verdict c) (command line c)
unfolding command set_echo
command_lem line c p short e ne = elim (Bool-cases (starts_with (bytes "ATD") line)) [
  | inl d ↦ simp (d, command) (dial_lem line (set_echo line c) p (long_enough line d short) e ne)
  | inr d ↦ elim (Bool-cases (is_line "ATA" line)) [
    | inl a ↦ simp (d, a, command) (refl, refl, ((p, e), refl), inl (refl, refl))
    | inr a ↦ simp (d, a, command) (refl, refl, ((p, e), refl), inr (refl, inl refl))
  ]
]

take-append : (n : ℕ) (s t : Text) → take n s ++ take (n - length (take n s)) t ≡ take n (s ++ t)
take-append zero s t = refl
take-append (suc n) [] t = let e : suc n - 0 ≡ suc n = omega arith in rw e refl
take-append (suc n) (x ∷ s) t =
    let e : suc n - suc (length (take n s)) ≡ n - length (take n s) = omega arith in
    rw e (ap (◌∷◌ x) (take-append n s t))

-- the bytes of `s` at the end of the buffer, as far as there is room
abbrev pub Put : RingBuffer ℕ → Text → RingBuffer ℕ → Type 0
Put r s r' =
    IsValid r'
    × (r'.buffer_size ≡ r.buffer_size)
    × (contents r' ≡ contents r ++ take (room r) s)
    × (count r' ≡ count r + length (take (room r) s))

transmit-Put :
    (s : Text) (c : Context)
    → IsValid c.usb_tx_buffer
    → Put c.usb_tx_buffer s (transmit s c).usb_tx_buffer
unfolding transmit
transmit-Put s c v = let (n, q) = enqueue_lem c.usb_tx_buffer s v in (q.0, q.1, q.3, q.2)

Put-append : (r r' r'' : RingBuffer ℕ) (s t : Text) → Put r s r' → Put r' t r'' → Put r (s ++ t) r''
Put-append r r' r'' s t (v, z, c, n) (v', z', c', n') =
    let left : room r' ≡ room r - length (take (room r) s) = omega (arith, z, n) in
    let whole = take-append (room r) s t in
    (
      v',
      z' ∙ z,
      c'
          ∙ ap₂ (λ l k. l ++ take k t) c left
          ∙ append_assoc (contents r) (take (room r) s) (take (room r - length (take (room r) s)) t)
          ∙ ap (◌++◌ (contents r)) whole,
      omega (
        arith,
        n',
        n,
        ap (λ k. length (take k t)) left,
        ap length whole,
        length-append (take (room r) s) (take (room r - length (take (room r) s)) t),
      ),
    )

Put-nil : (r : RingBuffer ℕ) → IsValid r → Put r [] r
Put-nil r v =
    let e = take-nil ℕ (room r) in
    (
      v,
      refl,
      sym (append-nil (contents r)) ∙ ap (◌++◌ (contents r)) (sym e),
      omega (arith, ap length e),
    )

-- the echo of a line
abbrev pub echoed : Text → Context → Text
echoed line c = if c.echo then line ++ bytes "\r" else []

echo_line_lem :
    (line : Text) (c : Context)
    → IsValid c.usb_tx_buffer
    → let d = echo_line line c in
      Put c.usb_tx_buffer (echoed line c) d.usb_tx_buffer
      × (d.pty ≡ c.pty)
      × (d.os ≡ c.os)
      × (d.connected ≡ c.connected)
unfolding echo_line transmit
echo_line_lem line c v = elim (Bool-cases c.echo) [
  | inl e ↦ simp (e, echo_line) (transmit-Put (line ++ bytes "\r") c v, refl, refl, refl)
  | inr e ↦ simp (e, echo_line) (Put-nil c.usb_tx_buffer v, refl, refl, refl)
]

-- What a command line comes to: a reply behind the echo, and the line up if that is CONNECT.
abbrev pub Answered : Model → Text → Context → Context → Type 0
Answered model line c d =
    (reply : Text) × Put c.usb_tx_buffer (echoed line c ++ reply) d.usb_tx_buffer
    × Equipped c d
    × (((reply ≡ connect_reply) × (d.connected ≡ true))
        ⊎ ((d.connected ≡ c.connected)
            × ((ext_reply model line ≡ some reply) ⊎ ((reply ≡ ok_reply) ⊎ (reply ≡ busy_reply)))))

finish_lem :
    (model : Model) (line : Text) (c b : Context) (r : Result)
    → Put c.usb_tx_buffer (echoed line c) b.usb_tx_buffer
    → b.connected ≡ c.connected
    → b.os ≡ c.os
    → Verdict b r
    → Answered model line c (finish r)
unfolding transmit
finish_lem model line c b (reply, online, d) q k os (u, k', (pty, same), change) =
    let put : Put b.usb_tx_buffer reply (transmit reply d).usb_tx_buffer =
      rw (← u) (transmit-Put reply d (rw u q.0)) in
    let all =
      Put-append c.usb_tx_buffer b.usb_tx_buffer (transmit reply d).usb_tx_buffer (echoed line c)
        reply q put in
    let as_before = same ∙ ap (λ o. o.answers) os in
    elim change [
      | inl (on, e) ↦ (reply, simp on all, simp on (pty, as_before), inl (e, simp on refl))
      | inr (off, e) ↦
          (reply, simp off all, simp off (pty, as_before), inr (simp off (k' ∙ k), inr e))
    ]

-- On every modem, a command line other than a bare `ATD` is answered: the buffer gets, as far as
-- there is room, the echo if that is on, and then a reply. Either that is CONNECT and the line is
-- up, or it is that of the modem's own commands, OK, or BUSY, and the line is as it was. There must
-- be a terminal device, the first system call must succeed, and the buffer be valid.
pub process_at_lem :
    (model : Model) (line : Text) (c : Context) (p : PtyDev)
    → IsValid c.usb_tx_buffer
    → line ≢ bytes "ATD"
    → c.pty ≡ some p
    → c.os.answers c.os.clock Syscall.socket ≢ fail
    → EndsIn (Answered model line c) (process_at model line c)
unfolding process_at process_at_ext transmit
process_at_lem model line c p v short e ne =
    let b = echo_line line c in
    let (q, pty, os, k) = echo_line_lem line c v in
    elim (Option-cases (ext_reply model line)) [
      | inl none_of_these ↦
          simp (none_of_these, process_at, process_at_ext)
            (EndsIn-bind (Verdict b) (Answered model line c) (command line b) _
              (command_lem line b p short (pty ∙ e) (rw os ne))
              (λ r h. finish_lem model line c b r q k os h))
      | inr (reply, handled) ↦
          simp (handled, process_at, process_at_ext)
            (
              reply,
              Put-append c.usb_tx_buffer b.usb_tx_buffer (transmit reply b).usb_tx_buffer
                  (echoed line c) reply q (transmit-Put reply b q.0),
              ((p, pty ∙ e), ap (λ o. o.answers) os),
              inr (k, inl refl),
            )
    ]
