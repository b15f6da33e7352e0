-- ===== src/PtyDev.antt =====
-- src/pty_dev.cpp: the pseudo terminal at whose other side `pppd` runs.
pub mod Laws
pub mod Send
use me56ps2_emulator.Prelude.{
  ℕ, zero, suc, Bool, true, false, not, Option, none, some, List, [], ◌∷◌, ◌==◌, if◌then◌else◌,
  drop,
}
use me56ps2_emulator.Text.{Text}
use me56ps2_emulator.Receive.{Arrival, ended, quiet, arrived, arrival}
use me56ps2_emulator.Os.{Ret, fail, got, Syscall, Os, syscall, perform, Outcome, ok, running}

-- `debug_level` and the callback, which main sets once, are left out.
pub record PtyDev : Type 0 where
  pub master_fd : ℕ
  pub slave_name : Text
  pub recv_thread_ptr : Option ℕ

unfoldable pub pty_dev : PtyDev
pty_dev = record { master_fd = 0; slave_name = []; recv_thread_ptr = none }

unfoldable pub is_connected : PtyDev → Bool
is_connected p = not (p.master_fd == 0)

-- Calls in a row, up to the first that returns a negative number.
unfoldable pub all_succeed : List Syscall → Os → Bool × Os
all_succeed [] os = (true, os)
all_succeed (call ∷ calls) os =
    let (ret, os1) = syscall call os in
    elim ret [ fail ↦ (false, os1) | got _ ↦ all_succeed calls os1 ]

-- what `connect` asks of the new terminal before its name: access, and raw mode
abbrev pub setup_calls : ℕ → List Syscall
setup_calls fd =
    Syscall.grantpt fd ∷ Syscall.unlockpt fd ∷ Syscall.tcgetattr fd ∷ Syscall.tcsetattr fd ∷ []

-- `ptsname_r` returns 0 if it wrote the name.
unfoldable finish : PtyDev → ℕ → Os → Bool × PtyDev × Os
finish p fd os =
    let (ret, os1) = syscall (Syscall.ptsname_r fd) os in
    elim ret [
      | got zero ↦ (
        true,
        record { master_fd = fd; slave_name = os.slave_path fd; recv_thread_ptr = some fd },
        perform (Syscall.recv_thread fd) os1,
      )
      | _ ↦ (false, p, perform (Syscall.close fd) os1)
    ]

unfoldable configure : PtyDev → ℕ → Os → Bool × PtyDev × Os
unfolding finish
configure p fd os =
    let (success, os1) = all_succeed (setup_calls fd) os in
    if success then finish p fd os1 else (false, p, perform (Syscall.close fd) os1)

unfoldable pub connect : PtyDev → Os → Bool × PtyDev × Os
unfolding configure
connect p os =
    let (ret, os1) = syscall Syscall.posix_openpt os in
    elim ret [ fail ↦ (false, p, os1) | got fd ↦ configure p fd os1 ]

unfoldable join_thread : PtyDev → Os → PtyDev × Os
join_thread p os = elim p.recv_thread_ptr [
  | none ↦ (p, os)
  | some fd ↦ (record p { recv_thread_ptr = none }, perform (Syscall.join fd) os)
]

unfoldable pub disconnect : PtyDev → Os → PtyDev × Os
unfolding join_thread
disconnect p os =
    if p.master_fd == 0
    then join_thread p os
    else join_thread (record p { master_fd = 0 }) (perform (Syscall.close p.master_fd) os)

-- The loop of `send`: the list is what is left from `buffer + ptr` on.
unfoldable pub send_from : ℕ → ℕ → Text → Os → Outcome Os
send_from fuel fd [] os = ok os
send_from zero fd (c ∷ rest) os = running
send_from (suc fuel) fd (c ∷ rest) os =
    let (ret, os1) = syscall (Syscall.write fd (c ∷ rest)) os in
    elim ret [ fail ↦ ok os1 | got n ↦ send_from fuel fd (drop n (c ∷ rest)) os1 ]

unfoldable pub send : ℕ → PtyDev → Text → Os → Outcome Os
unfolding send_from
send fuel p buffer os = if p.master_fd == 0 then ok os else send_from fuel p.master_fd buffer os

unfoldable pub get_slave_name : PtyDev → Text
get_slave_name p = p.slave_name

-- A round of `recv_thread` on the descriptor that it was started with: `select`, where 0 says that
-- time ran out, and then `read`.
unfoldable pub recv_round : PtyDev → ℕ → Os → Arrival × Os
unfolding arrival
recv_round p fd os =
    let (ready, os1) = syscall (Syscall.select fd) os in
    elim ready [
      | fail ↦ (ended, os1)
      | got zero ↦ (if is_connected p then quiet else ended, os1)
      | got (suc _) ↦
          let (len, os2) = syscall (Syscall.read fd) os1 in
          (arrival len (os1.incoming os1.clock), os2)
    ]
