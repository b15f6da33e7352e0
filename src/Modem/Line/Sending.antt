-- ===== src/Modem/Line/Sending.antt =====
-- The on-line loop (Modem/Line.antt) ends, however much of the buffer the system takes.
use me56ps2_emulator.Context.Healthy.{
  with_os-Grown, Grown-refl, Grown-trans, SameAnswers, Grown, Able, Healthy,
}
use me56ps2_emulator.Prelude.{
  ◌∙◌, sym, ◌⊎◌, ◌≡◌, refl, inl, inr, ℕ, zero, suc, ◌≤◌, true, false, Option, none, some, [], ◌∷◌,
  length, length-drop, drop, arith, ◌==◌, if◌then◌else◌,
}
use me56ps2_emulator.Text.{Text}
use me56ps2_emulator.TcpSock
use me56ps2_emulator.TcpSock.{TcpSock}
use me56ps2_emulator.PtyDev
use me56ps2_emulator.PtyDev.{PtyDev}
use me56ps2_emulator.Os.{
  EndsIn-if, got, Syscall, Os, Outcome, ok, EndsIn, EndsIn-bind, Ret-cases, logged, ◌>>=◌,
}
use me56ps2_emulator.Context.{Context}
use me56ps2_emulator.Modem.Line.{Bool, Fault, fault, deliver, online_loop}

-- The turn keeps the state healthy and what waits for the game, and never takes the line down.
pub record Served (c d : Context) : Type 0 where
  pub grown : Grown c d
  pub up : (c.connected ≡ false) ⊎ (d.connected ≡ true)

on_and_off : true ≡ false → ⊥
on_and_off h = cc

still_up : (b : Bool) → (b ≡ false) ⊎ (b ≡ true)
still_up false = inl refl
still_up true = inr refl

pub Served-refl : (c : Context) → Healthy c → Served c c
Served-refl c h = record { grown = Grown-refl c h; up = still_up c.connected }

pub Served-trans : (b c d : Context) → Served b c → Served c d → Served b d
Served-trans b c d s t = record {
  grown = Grown-trans b c d s.grown t.grown;
  up = in_turn s.up t.up;
}
  where
    in_turn :
        (b.connected ≡ false) ⊎ (c.connected ≡ true)
        → (c.connected ≡ false) ⊎ (d.connected ≡ true)
        → (b.connected ≡ false) ⊎ (d.connected ≡ true)
    in_turn (inl off) _ = inl off
    in_turn (inr on) (inr still) = inr still
    in_turn (inr on) (inl off) = absurd (on_and_off (sym on ∙ off))

-- the same line as before
pub Served-same : (c d : Context) → Grown c d → d.connected ≡ c.connected → Served c d
Served-same c d g e = record { grown = g; up = rw e (still_up c.connected) }

sock_send_ends :
    (fuel fd : ℕ) (buffer : Text) (os : Os)
    → length buffer ≤ fuel
    → Able os.answers
    → EndsIn (SameAnswers os) (TcpSock.send_from fuel fd buffer os)
unfolding TcpSock.send_from
sock_send_ends fuel fd [] os h a = refl
sock_send_ends zero fd (x ∷ rest) os h a = absurd (omega arith)
sock_send_ends (suc fuel) fd (x ∷ rest) os h a =
    elim (Ret-cases (os.answers os.clock (Syscall.send fd (x ∷ rest)))) [
      | inl e ↦ simp (e, TcpSock.send_from) refl
      | inr (zero, e) ↦ absurd (a.sends os.clock fd (x ∷ rest) e)
      | inr (suc n, e) ↦
          simp (e, TcpSock.send_from)
            (sock_send_ends fuel fd (drop n rest)
              (logged (Syscall.send fd (x ∷ rest)) (got (suc n)) os)
              (omega (arith, length-drop n rest)) a)
    ]

pty_send_ends :
    (fuel fd : ℕ) (buffer : Text) (os : Os)
    → length buffer ≤ fuel
    → Able os.answers
    → EndsIn (SameAnswers os) (PtyDev.send_from fuel fd buffer os)
unfolding PtyDev.send_from
pty_send_ends fuel fd [] os h a = refl
pty_send_ends zero fd (x ∷ rest) os h a = absurd (omega arith)
pty_send_ends (suc fuel) fd (x ∷ rest) os h a =
    elim (Ret-cases (os.answers os.clock (Syscall.write fd (x ∷ rest)))) [
      | inl e ↦ simp (e, PtyDev.send_from) refl
      | inr (zero, e) ↦ absurd (a.writes os.clock fd (x ∷ rest) e)
      | inr (suc n, e) ↦
          simp (e, PtyDev.send_from)
            (pty_send_ends fuel fd (drop n rest)
              (logged (Syscall.write fd (x ∷ rest)) (got (suc n)) os)
              (omega (arith, length-drop n rest)) a)
    ]

-- one of the two `send` methods, as the on-line loop calls it
send-Served :
    (c : Context) (m : Outcome Os)
    → Healthy c
    → EndsIn (SameAnswers c.os) m
    → EndsIn (Served c) (m >>= λ os'. ok (record c { os = os' }))
send-Served c m h e =
    EndsIn-bind (SameAnswers c.os) (Served c) m _ e
      (λ os' s. Served-same c (record c { os = os' }) (with_os-Grown c os' h s) refl)

module _ (fuel : ℕ) (buffer : Text) (c : Context) (l : length buffer ≤ fuel) (h : Healthy c) where
  sent_over :
      (sock : Option TcpSock)
      → EndsIn (Served c) (elim sock [
        | none ↦ ok c
        | some s ↦ TcpSock.send fuel s buffer c.os >>= λ os'. ok (record c { os = os' })
      ])
  unfolding TcpSock.send
  sent_over none = Served-refl c h
  sent_over (some s) = send-Served c (TcpSock.send fuel s buffer c.os) h (
      EndsIn-if (SameAnswers c.os) (s.comm_fd == 0) (ok c.os) _ refl
        (sock_send_ends fuel s.comm_fd buffer c.os l h.able))

  written_to : (p : PtyDev) → EndsIn (SameAnswers c.os) (PtyDev.send fuel p buffer c.os)
  unfolding PtyDev.send
  written_to p =
      EndsIn-if (SameAnswers c.os) (p.master_fd == 0) (ok c.os) _ refl
        (pty_send_ends fuel p.master_fd buffer c.os l h.able)

  delivered :
      (pty : Option PtyDev)
      → (p : PtyDev) × (pty ≡ some p)
      → EndsIn (Served c) (elim pty [
        | none ↦ fault Fault.null_pointer
        | some p ↦
            if PtyDev.is_connected p
            then (PtyDev.send fuel p buffer c.os >>= λ os'. ok (record c { os = os' }))
            else elim c.sock [
              | none ↦ ok c
              | some s ↦ TcpSock.send fuel s buffer c.os >>= λ os'. ok (record c { os = os' })
            ]
      ])
  delivered none (p, e) = absurd cc
  delivered (some p) there =
      EndsIn-if (Served c) (PtyDev.is_connected p) _ _
        (send-Served c (PtyDev.send fuel p buffer c.os) h (written_to p)) (sent_over c.sock)

  deliver-Served : EndsIn (Served c) (deliver fuel buffer c)
  unfolding deliver
  deliver-Served = delivered c.pty h.terminal

pub online_loop-Served :
    (fuel : ℕ) (buffer : Text) (c : Context)
    → length buffer ≤ fuel
    → Healthy c
    → EndsIn (λ r. Served c r.1) (online_loop fuel buffer c)
unfolding online_loop
online_loop-Served fuel [] c l h = Served-refl c h
online_loop-Served fuel (x ∷ buffer) c l h =
    EndsIn-if (λ r. Served c r.1) c.connected _ _
      (EndsIn-bind (Served c) (λ r. Served c r.1) (deliver fuel (x ∷ buffer) c) _
        (deliver-Served fuel (x ∷ buffer) c l h) (λ d g. g))
      (Served-refl c h)
