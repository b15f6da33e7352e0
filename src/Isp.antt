-- ===== src/Isp.antt =====
-- src/isp.h: the commands that turn the host into the provider, run one after the other.
pub mod Laws
use me56ps2_emulator.Prelude.{List, [], ◌∷◌}
use me56ps2_emulator.Text.{Text, bytes}
use me56ps2_emulator.Os.{fail, got, Syscall, Os, syscall, perform}

-- The child's side of `fork` becomes the command; what it does is not modelled. The parent waits
-- for it and goes on whatever the status is.
unfoldable pub run_command : List Text → Os → Os
run_command [] os = os
run_command (command ∷ args) os =
    let (pid, os1) = syscall (Syscall.fork (command ∷ args)) os in
    elim pid [ fail ↦ os1 | got _ ↦ perform Syscall.waitpid os1 ]

abbrev pub sysctl_command : List Text
sysctl_command = bytes "sudo" ∷ bytes "sysctl" ∷ bytes "-w" ∷ bytes "net.ipv4.ip_forward=1" ∷ []

unfoldable pub set_ipforward : Os → Os
set_ipforward os = run_command sysctl_command os

abbrev pub shell_command : Text → List Text
shell_command script = bytes "sudo" ∷ bytes "sh" ∷ bytes "-c" ∷ script ∷ []

abbrev pub masquerade_script : Text
masquerade_script =
    bytes
      "(iptables -t nat -C POSTROUTING -o wlan0 -j MASQUERADE 2>/dev/null || iptables -t nat -A POSTROUTING -o wlan0 -j MASQUERADE)"

abbrev pub forward_script : Text
forward_script =
    bytes
      "(iptables -C FORWARD -i ppp+ -o wlan0 -j ACCEPT 2>/dev/null || iptables -A FORWARD -i ppp+ -o wlan0 -j ACCEPT)"

abbrev pub return_script : Text
return_script =
    bytes
      "(iptables -C FORWARD -i wlan0 -o ppp+ -m state --state RELATED,ESTABLISHED -j ACCEPT 2>/dev/null || iptables -A FORWARD -i wlan0 -o ppp+ -m state --state RELATED,ESTABLISHED -j ACCEPT)"

unfoldable pub set_iptables : Os → Os
set_iptables os =
    run_command (shell_command return_script) (
      run_command (shell_command forward_script) (run_command (shell_command masquerade_script) os))

abbrev pub pppd_command : Text → List Text
pppd_command slave_name =
    bytes "sudo"
    ∷ bytes "pppd"
    ∷ slave_name
    ∷ bytes "115200"
    ∷ bytes "local"
    ∷ bytes "debug"
    ∷ bytes "10.0.0.1:10.0.0.2"
    ∷ bytes "ms-dns"
    ∷ bytes "10.0.0.1"
    ∷ bytes "proxyarp"
    ∷ []

unfoldable pub start_ppp : Text → Os → Os
start_ppp [] os = os
start_ppp (c ∷ slave_name) os = run_command (pppd_command (c ∷ slave_name)) os

unfoldable pub setup_isp : Text → Os → Os
unfolding set_ipforward set_iptables start_ppp
setup_isp slave_name os = start_ppp slave_name (set_iptables (set_ipforward os))
