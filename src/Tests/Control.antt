-- ===== src/Tests/Control.antt =====
-- The theorems on control requests, at requests of a host.
use me56ps2_emulator.Prelude.{
  ◌≡◌, refl, ℕ, inl, inr, true, some, List, [], ◌∷◌, arith, length, take, set, get_elem?, min,
  replicate,
}
use me56ps2_emulator.Text.{Text}
use me56ps2_emulator.Os.{EndsIn, ok, fault, Fault, ◌>>=◌}
use me56ps2_emulator.Modem.At.{Model}
use me56ps2_emulator.Usb.Descriptor.{StringDescriptor, string_bytes}
use me56ps2_emulator.Usb.Request.Model.{
  Request, config_descriptors, string_descriptors, low_byte, get_descriptor_type, is_event, is_type,
  get_request_type, get_request,
}
use me56ps2_emulator.Usb.Request.Handlers.{
  Packet, total_length, get_descriptor, start_threads, thread_plan,
}
use me56ps2_emulator.Usb.Request.Loop.{Event, control, other, event_loop, event_usb_control_loop}
use me56ps2_emulator.Usb.Request.Copies.{
  is_chain, served, get_descriptor_config, get_descriptor_string,
}
use me56ps2_emulator.Usb.Request.Threads.{start_threads_twice}
use me56ps2_emulator.Usb.Request.Laws.{Whole, Fine}
use me56ps2_emulator.Usb.Request.Events.{event_unknown_rate, event_loop_lem, event_overrun}
use me56ps2_emulator.Tests.Sample.{device}

abbrev request : ℕ → ℕ → ℕ → ℕ → Request
request kind code value len = record {
  bm_request_type = kind;
  b_request = code;
  w_value = value;
  w_index = 0;
  w_length = len;
}

abbrev garbage : Text
garbage = replicate 256 0

abbrev pkt : Packet
pkt = record { data_buffer = garbage; header_length = 0 }

abbrev get_config : Request
get_config = request 0x80 6 0x200 255

get_config_type : get_descriptor_type get_config ≡ 2
unfolding get_descriptor_type
get_config_type = refl

get_descriptor_config_example :
    let source = config_descriptors Model.lucent (low_byte get_config.w_value) in
    (p : Packet) × (get_descriptor Model.lucent get_config pkt device ≡ some (ok (true, p, device)))
    × (served p ≡ take (total_length source) source)
    × (is_chain 256 (served p) ≡ true)
    × Whole p
get_descriptor_config_example =
    get_descriptor_config Model.lucent get_config pkt device refl get_config_type

abbrev get_name : Request
get_name = request 0x80 6 0x302 10

get_name_type : get_descriptor_type get_name ≡ 3
unfolding get_descriptor_type
get_name_type = refl

get_descriptor_string_example :
    (descriptor : StringDescriptor) × (p : Packet) × (get_elem?
        (string_descriptors Model.omron)
        (low_byte get_name.w_value)
      ≡ some descriptor)
    × (get_descriptor Model.omron get_name pkt device ≡ some (ok (true, p, device)))
    × (p.header_length ≡ min get_name.w_length (length (string_bytes descriptor)))
    × (served p ≡ set (take p.header_length (string_bytes descriptor)) 0 p.header_length)
    × Whole p
get_descriptor_string_example =
    get_descriptor_string Model.omron get_name pkt device refl get_name_type (omega arith)

start_threads_twice_example :
    (start_threads (thread_plan Model.omron 1) device >>= start_threads (thread_plan Model.omron 1))
    ≡ start_threads (thread_plan Model.omron 1) device
start_threads_twice_example = start_threads_twice (thread_plan Model.omron 1) device

fine : Fine device
fine k call e = absurd cc

abbrev set_line : Request
set_line = request 0x21 0x20 0 7

abbrev events : List Event
events = other ∷ control get_config garbage [] ∷ control set_line garbage (1 ∷ 2 ∷ 3 ∷ []) ∷ []

event_loop_example : EndsIn Fine (event_loop Model.lucent events device)
event_loop_example =
    event_loop_lem Model.lucent events device
      (tt, ((refl, inl refl, tt), ((refl, inr (omega arith), tt), tt))) fine

abbrev long : Request
long = request 0x21 0x20 0 300

event_overrun_example :
    event_usb_control_loop Model.lucent (control long garbage (replicate 300 7)) device
    ≡ fault Fault.out_of_bounds
event_overrun_example =
    event_overrun Model.lucent long garbage (replicate 300 7) device refl refl (omega arith)
      (omega arith) fine

abbrev baud : Request
baud = request 0x40 0x10 14 0

is_baud : is_event baud 0x40 0x10 ≡ true
unfolding is_event is_type get_request_type get_request
is_baud = refl

event_unknown_rate_example :
    event_usb_control_loop Model.online_station (control baud garbage []) device
    ≡ fault Fault.out_of_bounds
event_unknown_rate_example =
    event_unknown_rate baud garbage [] device refl (inr (omega arith)) is_baud (omega arith) fine
