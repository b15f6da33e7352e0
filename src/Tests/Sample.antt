-- ===== src/Tests/Sample.antt =====
-- A small buffer, a system, and the shared state around them.
use me56ps2_emulator.Prelude.{
  refl, ◌≡◌, ℕ, ◌+◌, ◌*◌, true, false, none, some, List, [], ◌∷◌, ◌^◌, ◌-◌, arith, append-nil, sym,
  ap, ◌∙◌, ◌<◌, ◌≤◌,
}
use me56ps2_emulator.Text.{bytes}
use me56ps2_emulator.Text.Scan.{Directive, uint, literal, sscanf, is_digit}
use me56ps2_emulator.Modem.Address.{Libc, SockAddr, quad, af_inet}
use me56ps2_emulator.Modem.Address.Laws.{ReadsQuads, sscanf_sep, sscanf_uint, quad-append}
use me56ps2_emulator.RingBuffer.{RingBuffer}
use me56ps2_emulator.RingBuffer.Inv.{IsValid}
use me56ps2_emulator.Os.{Os, got}
use me56ps2_emulator.TcpSock.{TcpSock}
use me56ps2_emulator.PtyDev.{pty_dev}
use me56ps2_emulator.Context.{Context}
use me56ps2_emulator.Usb.Device.{Device}

-- holds 4 and 1
abbrev pub ring : RingBuffer ℕ
ring = record { buffer = 1 ∷ 2 ∷ 3 ∷ 4 ∷ []; buffer_size = 4; write_ptr = 1; read_ptr = 3 }

pub ring-IsValid : IsValid ring
ring-IsValid = record {
  storage = omega arith;
  small = omega arith;
  write_in = omega arith;
  read_in = omega arith;
}

-- `inet_addr`, by `sscanf`
abbrev word_max : ℕ
word_max = 2 ^ 64 - 1

abbrev dotted : List Directive
dotted = uint ∷ literal b'.' ∷ uint ∷ literal b'.' ∷ uint ∷ literal b'.' ∷ uint ∷ []

abbrev little_endian : List ℕ → ℕ
little_endian (a ∷ b ∷ c ∷ d ∷ []) = a + 256 * (b + 256 * (c + 256 * d))
little_endian _ = 0

abbrev pub libc : Libc
libc = record { ulong_max = word_max; inet_addr = λ s. little_endian (sscanf word_max dotted s) }

scans :
    (a b c d : ℕ)
    → a < 256
    → b < 256
    → c < 256
    → d < 256
    → sscanf word_max dotted (quad b'.' a b c d) ≡ a ∷ b ∷ c ∷ d ∷ []
unfolding is_digit sscanf
scans a b c d ha hb hc hd =
    let word : 65535 ≤ word_max = omega arith in
    ap (sscanf word_max dotted) (sym (append-nil (quad b'.' a b c d)) ∙ quad-append b'.' a b c d [])
    ∙ rw
        (
          sscanf_sep libc word a b'.' (uint ∷ literal b'.' ∷ uint ∷ literal b'.' ∷ uint ∷ []) _
              (omega arith) refl,
          sscanf_sep libc word b b'.' (uint ∷ literal b'.' ∷ uint ∷ []) _ (omega arith) refl,
          sscanf_sep libc word c b'.' (uint ∷ []) _ (omega arith) refl,
          sscanf_uint libc word d [] [] (omega arith) tt,
          sscanf,
        )
        refl

pub libc-ReadsQuads : ReadsQuads libc
libc-ReadsQuads a b c d ha hb hc hd = ap little_endian (scans a b c d ha hb hc hd)

-- Every call succeeds; `k` is what it gives.
abbrev pub system : ℕ → Os
system k = record {
  answers = λ _ _. got k;
  clock = 0;
  trace = [];
  libc = libc;
  slave_path = λ _. bytes "/dev/pts/3";
  incoming = λ _. bytes "LOGIN";
}

abbrev addr : SockAddr
addr = record { sin_family = af_inet; sin_port = 0; sin_addr = 0 }

abbrev pub sock : ℕ → TcpSock
sock fd = record {
  server_fd = none;
  comm_fd = fd;
  is_server = false;
  addr = addr;
  recv_thread_ptr = some 5;
  listen_thread_ptr = false;
}

-- on line, with a connection to another player
abbrev pub context : Context
context = record {
  usb_tx_buffer = ring;
  sock = some (sock 5);
  pty = some pty_dev;
  connected = true;
  echo = true;
  os = system 1;
}

abbrev pub off_line : Context
off_line = record context { connected = false }

abbrev pub device : Device
device = record { context = context; threads = [] }
