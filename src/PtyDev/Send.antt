-- ===== src/PtyDev/Send.antt =====
-- `pty_dev::send` (src/pty_dev.cpp) hands over all bytes.
use me56ps2_emulator.Prelude.{
  refl, sym, ◌≡◌, ◌∙◌, ◌++◌, ap, zero, suc, ◌≤◌, List, [], ◌∷◌, ◌==◌, ==_refl, if◌then◌else◌,
  length, take, drop, append-nil, length-drop, take-append-drop, append_assoc, arith, ℕ,
}
use me56ps2_emulator.Text.{Text}
use me56ps2_emulator.Os.{logged, Ret, got, Syscall, Os, ok}
use me56ps2_emulator.PtyDev.{send_from}
use me56ps2_emulator.TcpSock.Laws.{Sends}

-- the bytes that the calls of `write` on `fd` gave to the system, by what they returned, newest first
abbrev pub written_by : ℕ → Syscall × Ret → Text
written_by fd (Syscall.write fd' buffer, got n) = if fd == fd' then take n buffer else []
written_by fd _ = []

abbrev pub written : ℕ → List (Syscall × Ret) → Text
written fd [] = []
written fd (entry ∷ trace) = written fd trace ++ written_by fd entry

written_by_self :
    (fd n : ℕ) (buffer : Text) → written_by fd (Syscall.write fd buffer, got n) ≡ take n buffer
written_by_self fd n buffer = simp (==_refl fd)

-- The loop ends, and it has sent all bytes, each once and in order, however few the system takes at
-- a time, if it takes one at least.
pub send_from-written :
    (fuel fd : ℕ) (buffer : Text) (os : Os)
    → length buffer ≤ fuel
    → Sends os
    → (os' : Os) × (send_from fuel fd buffer os ≡ ok os')
      × (written fd os'.trace ≡ written fd os.trace ++ buffer)
unfolding send_from
send_from-written fuel fd [] os h s = (os, refl, sym (append-nil _))
send_from-written zero fd (c ∷ rest) os h s = absurd (omega arith)
send_from-written (suc fuel) fd (c ∷ rest) os h s =
    let (n, e) = (s os.clock fd (c ∷ rest)).1 in
    let (os', r, t) =
      send_from-written fuel fd (drop n rest)
        (logged (Syscall.write fd (c ∷ rest)) (got (suc n)) os) (omega (arith, length-drop n rest))
        s in
    (
      os',
      simp (e, send_from) r,
      t
          ∙ ap (λ l. (written fd os.trace ++ l) ++ drop n rest)
              (written_by_self fd (suc n) (c ∷ rest))
          ∙ append_assoc (written fd os.trace) (take (suc n) (c ∷ rest)) (drop n rest)
          ∙ ap (λ l. written fd os.trace ++ c ∷ l) (take-append-drop n rest),
    )
