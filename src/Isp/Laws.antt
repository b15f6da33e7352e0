-- ===== src/Isp/Laws.antt =====
-- What `ISP::setupISP` (src/isp.h) asks of the system.
use me56ps2_emulator.Prelude.{append_assoc, ◌++◌, ◌≢◌, ◌≡◌, refl, ◌∙◌, List, [], ◌∷◌, inl, inr}
use me56ps2_emulator.Text.{Text}
use me56ps2_emulator.Os.{Ret, Syscall, Os, Ret-cases}
use me56ps2_emulator.Isp.{
  pppd_command, return_script, forward_script, masquerade_script, shell_command, sysctl_command,
  run_command, set_ipforward, set_iptables, start_ppp, setup_isp,
}

run_command-answers : (args : List Text) (os : Os) → (run_command args os).answers ≡ os.answers
unfolding run_command
run_command-answers [] os = refl
run_command-answers (command ∷ args) os =
    elim (Ret-cases (os.answers os.clock (Syscall.fork (command ∷ args)))) [
      | inl e ↦ simp (e, run_command)
      | inr (k, e) ↦ simp (e, run_command)
    ]

start_ppp-answers : (slave_name : Text) (os : Os) → (start_ppp slave_name os).answers ≡ os.answers
unfolding start_ppp
start_ppp-answers [] os = refl
start_ppp-answers (c ∷ slave_name) os = run_command-answers _ os

pub setup_isp-answers :
    (slave_name : Text) (os : Os) → (setup_isp slave_name os).answers ≡ os.answers
unfolding setup_isp set_iptables set_ipforward
setup_isp-answers slave_name os =
    start_ppp-answers slave_name _
    ∙ run_command-answers _ _
    ∙ run_command-answers _ _
    ∙ run_command-answers _ _
    ∙ run_command-answers _ _

-- the commands that were started, oldest first
abbrev commands : List (Syscall × Ret) → List (List Text)
commands [] = []
commands ((Syscall.fork args, ret) ∷ trace) = commands trace ++ args ∷ []
commands (entry ∷ trace) = commands trace

run_command-commands :
    (command : Text) (args : List Text) (os : Os)
    → commands (run_command (command ∷ args) os).trace ≡ commands os.trace ++ (command ∷ args) ∷ []
unfolding run_command
run_command-commands command args os =
    elim (Ret-cases (os.answers os.clock (Syscall.fork (command ∷ args)))) [
      | inl e ↦ simp (e, run_command)
      | inr (k, e) ↦ simp (e, run_command)
    ]

-- Setting up the provider starts, whatever the system answers, the five commands in this order: the
-- forwarding of packets, the three rules of iptables, and `pppd` on the terminal's name, if there is
-- one.
setup_isp-commands :
    (slave_name : Text) (os : Os)
    → slave_name ≢ []
    → commands (setup_isp slave_name os).trace
      ≡ commands os.trace
        ++ sysctl_command
          ∷ shell_command masquerade_script
          ∷ shell_command forward_script
          ∷ shell_command return_script
          ∷ pppd_command slave_name
          ∷ []
unfolding setup_isp set_ipforward set_iptables start_ppp
setup_isp-commands [] os ne = absurd (ne refl)
setup_isp-commands (c ∷ slave_name) os ne =
    let os1 = run_command sysctl_command os in
    let os2 = run_command (shell_command masquerade_script) os1 in
    let os3 = run_command (shell_command forward_script) os2 in
    let os4 = run_command (shell_command return_script) os3 in
    rw
      (
        run_command-commands _ _ os4,
        run_command-commands _ _ os3,
        run_command-commands _ _ os2,
        run_command-commands _ _ os1,
        run_command-commands _ _ os,
      )
      (simp append_assoc)
