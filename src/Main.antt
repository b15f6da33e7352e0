-- ===== src/Main.antt =====
-- src/main_app.cpp, `main`: the options, the address, and what is made before the event loop.
pub mod Laws
pub mod Begun
use me56ps2_emulator.Prelude.{
  ℕ, ◌+◌, ◌%◌, ◌^◌, ◌-◌, Bool, true, false, not, ◌&&◌, ◌||◌, Option, none, some, List, [], ◌∷◌,
  ◌==◌, if◌then◌else◌,
}
use me56ps2_emulator.Text.{Text, bytes}
use me56ps2_emulator.Text.Scan.{uint, sscanf}
use me56ps2_emulator.RingBuffer.{RingBuffer, ring_buffer}
use me56ps2_emulator.TcpSock
use me56ps2_emulator.TcpSock.{TcpSock}
use me56ps2_emulator.PtyDev.{pty_dev}
use me56ps2_emulator.Os.{Syscall, Os, Outcome, ok, ◌>>=◌}
use me56ps2_emulator.Context.{Context}
use me56ps2_emulator.Modem.Address.{Libc, SockAddr, af_inet, htons, parse_address}
use me56ps2_emulator.Modem.Registry.{Instance, Registry, no_instance, get_instance}
use me56ps2_emulator.Usb.Gadget.{Udc, UsbRawGadget, usb_raw_gadget, set_debug_level, init, run}

-- What `getopt` returns for "m:svh", with `optarg`; `opt_other` is `?`.
pub data Opt : Type 0 where
  opt_m : Text → Opt
  opt_s opt_v opt_h opt_other : Opt

-- what the options set
pub record Options : Type 0 where
  pub current_modem : Option Instance
  pub is_server : Bool
  pub debug_level : ℕ
  pub registry : Registry

abbrev pub defaults : Options
defaults = record {
  current_modem = none;
  is_server = false;
  debug_level = 0;
  registry = no_instance;
}

-- `exit` with a status, behind a message
pub data Parsed : Type 0 where
  exit : ℕ → Parsed
  options : Options → Parsed

unfoldable pub parse_options : List Opt → Options → Parsed
parse_options [] o = options o
parse_options (opt_m name ∷ rest) o =
    let (found, registry) = get_instance name o.registry in
    elim found [
      | none ↦ exit 1
      | some i ↦ parse_options rest (record o { current_modem = some i; registry = registry })
    ]
parse_options (opt_s ∷ rest) o = parse_options rest (record o { is_server = true })
parse_options (opt_v ∷ rest) o = parse_options rest (record o { debug_level = o.debug_level + 1 })
parse_options (opt_h ∷ rest) o = exit 0
parse_options (opt_other ∷ rest) o = exit 1

-- no `-m`
unfoldable pub default_modem : Options → Options
default_modem o = elim o.current_modem [
  | none ↦
      let (found, registry) = get_instance (bytes "Omron") o.registry in
      record o { current_modem = found; registry = registry }
  | some i ↦ o
]

-- The 32 bits that `atoi` returns; where it is given more than fits a `long` C leaves it open.
abbrev atoi : Libc → Text → ℕ
atoi libc t = elim (sscanf libc.ulong_max (uint ∷ []) t) [ [] ↦ 0 | value ∷ _ ↦ value ]

abbrev inaddr_none : ℕ
inaddr_none = 2 ^ 32 - 1

is_some : Option SockAddr → Bool
is_some none = false
is_some (some addr) = true

-- The two arguments behind the options, if they look like an address and a port, as `ip_addr` and
-- `port`; a port of -1 is none.
unfoldable pub socket_args : Libc → List Text → Option (Text × ℕ)
unfolding is_some
socket_args libc (next_arg ∷ port_arg ∷ _) =
    let port = atoi libc port_arg in
    if is_some (parse_address libc next_arg) || not (libc.inet_addr next_arg == inaddr_none)
    then (if port == 2 ^ 32 - 1 then none else some (next_arg, port))
    else none
socket_args libc _ = none

-- What the constructor of `tcp_sock` makes of an address and a port, which it gets as 16 bits.
abbrev server_addr : Libc → Text → ℕ → SockAddr
server_addr libc ip_addr port = record {
  sin_family = af_inet;
  sin_port = htons (port % 2 ^ 16);
  sin_addr = libc.inet_addr ip_addr;
}

-- `usb_raw_gadget`, its `init` and its `run`
unfoldable pub open_gadget : ℕ → Udc → Os → Outcome (UsbRawGadget × Os)
open_gadget level udc os = usb_raw_gadget (bytes "/dev/raw-gadget") os >>= λ r.
    init udc r.1 >>= λ os'. run os' >>= λ os''. ok (set_debug_level r.0 level, os'')

open_sock : Bool → Option (Text × ℕ) → Os → Outcome (Option TcpSock × Os)
open_sock is_server none os = ok (none, os)
open_sock is_server (some (ip_addr, port)) os =
    TcpSock.tcp_sock is_server (server_addr os.libc ip_addr port) os >>= λ r. ok (some r.0, r.1)

abbrev tx_buffer_size : ℕ
tx_buffer_size = 524288

-- `ctx` when the event loop begins. `storage` is what `new` leaves in the buffer's array.
unfoldable pub set_up : List ℕ → Udc → Options → List Text → Os → Outcome Context
unfolding open_sock
set_up storage udc o args os = open_gadget o.debug_level udc os >>= λ g.
    open_sock o.is_server (socket_args os.libc args) g.1 >>= λ r. ok (record {
      usb_tx_buffer = ring_buffer storage tx_buffer_size;
      sock = r.0;
      pty = some pty_dev;
      connected = false;
      echo = false;
      os = r.1;
    })

-- Where `main` gets to before the loop: it exits, or it has a modem and the shared state.
pub data Started : Type 0 where
  exited : ℕ → Started
  started : Option Instance → Context → Started

unfoldable pub start : List ℕ → Udc → List Opt → List Text → Os → Outcome Started
start storage udc opts args os = elim (parse_options opts defaults) [
  | exit status ↦ ok (exited status)
  | options o ↦
      let o' = default_modem o in
      set_up storage udc o' args os >>= λ c. ok (started o'.current_modem c)
]
