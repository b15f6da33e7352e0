-- ===== src/Tests/Startup.antt =====
-- The theorems on what happens before the threads run, and on what is printed.
use me56ps2_emulator.System.{packet_comes, step}
use me56ps2_emulator.System.Whole.{start-Continues, begun}
use me56ps2_emulator.Modem.Line.{framing, skips_nul}
use me56ps2_emulator.Modem.Line.Safe.{lines}
use me56ps2_emulator.System.Steps.{Allowed, Continues}
use me56ps2_emulator.PtyDev.{pty_dev}
use me56ps2_emulator.RingBuffer.{ring_buffer}
use me56ps2_emulator.Context.{Context}
use me56ps2_emulator.Prelude.{
  true, false, length-replicate, ◌≡◌, refl, ℕ, none, some, List, [], ◌∷◌, length, replicate, arith,
  ◌≤◌,
}
use me56ps2_emulator.Text.{Text, bytes}
use me56ps2_emulator.Os.{ok, Syscall, perform, Os, EndsIn}
use me56ps2_emulator.Context.Healthy.{Able}
use me56ps2_emulator.Modem.At.{Model}
use me56ps2_emulator.Modem.Registry.{name_of, Instance, Registry, get_instance}
use me56ps2_emulator.Modem.Registry.Laws.{Result, get_instance_lem}
use me56ps2_emulator.Usb.Gadget.{run, init, usb_raw_gadget, Udc, dump_hex_and_ascii}
use me56ps2_emulator.Usb.Gadget.Dump.{undump, undump-dump_hex_and_ascii}
use me56ps2_emulator.Usb.Request.Laws.{Grants}
use me56ps2_emulator.System.Reach
use me56ps2_emulator.Usb.Gadget.{get_udc_driver, get_udc_device}
use me56ps2_emulator.Usb.Device.{ioctl}
use me56ps2_emulator.Text.{eq_text}
use me56ps2_emulator.Main.{
  started, socket_args, open_gadget, set_up, default_modem, parse_options, Opt, opt_m, opt_v, start,
}
use me56ps2_emulator.Main.Laws.{Ready, start-Ready}
use me56ps2_emulator.Tests.Sample.{system}

abbrev told : Text
told = 0x40 ∷ 4 ∷ 200 ∷ []

dump_example : undump 3 (dump_hex_and_ascii told) ≡ told
dump_example = undump-dump_hex_and_ascii told (omega arith, (omega arith, (omega arith, tt)))

abbrev second : Registry
second = record {
  instance = some (record { model = Model.omron; number = 1 });
  made = 2;
  deleted = 0 ∷ [];
}

get_instance_example : Result (bytes "Lucent") second (get_instance (bytes "Lucent") second)
get_instance_example = get_instance_lem (bytes "Lucent") second (refl, refl)

granted : Grants (system 1)
granted k call e = absurd cc

able : Able (system 1).answers
able = record {
  sends = λ k fd s e. absurd cc;
  writes = λ k fd s e. absurd cc;
  sockets = λ k e. absurd cc;
  accepts = λ k fd e. absurd cc;
  ep_reads = λ k ep_num e. absurd cc;
  ep_writes = λ k ep_num s e. absurd cc;
}

abbrev udc : Udc
udc = record { entries = none; uevent = λ _. none; driver_garbage = []; device_garbage = [] }

abbrev opts : List Opt
opts = opt_v ∷ opt_m (bytes "Lucent") ∷ []

abbrev storage : List ℕ
storage = replicate 524288 0

long_enough : (n : ℕ) → n ≤ length (replicate {A = ℕ} n 0)
long_enough n = omega (arith, length-replicate {A = ℕ} n 0)

start_example : EndsIn (Ready opts) (start storage udc opts [] (system 1))
start_example = start-Ready storage udc opts [] (system 1) (long_enough 524288) granted able

abbrev modem : Instance
modem = record { model = Model.lucent; number = 0 }

abbrev called : Os
called = perform Syscall.usb_run (
    perform (Syscall.usb_init [] [])
      (perform (Syscall.usb_open (bytes "/dev/raw-gadget")) (system 1)))

abbrev loaded : List ℕ → Context
loaded array = record {
  usb_tx_buffer = ring_buffer array 524288;
  sock = none;
  pty = some pty_dev;
  connected = false;
  echo = false;
  os = called;
}

started_so :
    (array : List ℕ) → start array udc opts [] (system 1) ≡ ok (started (some modem) (loaded array))
unfolding start parse_options default_modem set_up open_gadget usb_raw_gadget init run socket_args
    get_instance name_of bytes eq_text ioctl get_udc_driver get_udc_device
started_so array = refl

polite : Allowed true Model.lucent (packet_comes 2 (bytes "AT\r")) (begun (loaded storage))
unfolding lines bytes skips_nul framing
polite = (bytes "AT\r", refl, ((λ e. absurd cc), tt))

start-Continues_example :
    EndsIn
      (Continues (begun (loaded storage)))
      (step true Model.lucent (packet_comes 2 (bytes "AT\r")) (begun (loaded storage)))
start-Continues_example =
    start-Continues storage udc opts [] (system 1) modem (loaded storage) true
      (begun (loaded storage)) (packet_comes 2 (bytes "AT\r")) (long_enough 524288) able
      (started_so storage) Reach.Reach.start polite
