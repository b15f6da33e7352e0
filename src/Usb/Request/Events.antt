-- ===== src/Usb/Request/Events.antt =====
-- Sequences of events in `event_usb_control_loop` (src/main_app.cpp).
use me56ps2_emulator.Prelude.{
  ltb, ap, ℕ, ◌≡◌, inl, inr, ◌⊎◌, ◌≤◌, ◌<◌, true, false, List, [], ◌∷◌, ◌++◌, if◌then◌else◌, leb,
  length, take, drop, min, length-append, length-take, length-drop, Bool-cases, arith,
}
use me56ps2_emulator.Text.{Text}
use me56ps2_emulator.Os.{
  ◌>>=◌, EndsIn-fault, EndsIn, EndsIn-bind, EndsIn-if, ok, fault, Fault, Ret-cases, Syscall,
}
use me56ps2_emulator.Modem.At.{Model}
use me56ps2_emulator.Usb.Device.{Device, ioctl}
use me56ps2_emulator.Usb.Request.Model.{
  req_set_interface, req_set_configuration, req_get_descriptor, type_standard, is_type, type_vendor,
  is_event, Request,
}
use me56ps2_emulator.Usb.Request.Handlers.{
  online_station_request, handle_control_request, other_requests, Packet, process_control_packet,
}
use me56ps2_emulator.Usb.Request.Loop.{
  answer_to, handle_event, write_data, Event, control, other, is_in, run_ioctl, read_data, answer,
  event_usb_control_loop, event_loop,
}
use me56ps2_emulator.Usb.Request.Laws.{Whole, Grants, Fine, FineResult, ioctl_lem}
use me56ps2_emulator.Usb.Request.Safety.{KnownRate, process_control_packet_lem}

run_ioctl_lem : (call : Syscall) (d : Device) → Fine d → EndsIn Fine (run_ioctl call d)
run_ioctl_lem call d g =
    EndsIn-bind (λ r. Grants r.1) Fine (ioctl call d.context.os) _ (ioctl_lem call d.context.os g)
      (λ r h. h)

abbrev Ready : Packet × Device → Type 0
Ready r = Whole r.0 × Fine r.1

read_data_lem :
    (e : Request) (sent : Text) (pkt : Packet) (d : Device)
    → length pkt.data_buffer ≡ 256
    → e.w_length ≤ 256
    → Fine d
    → EndsIn Ready (read_data e sent pkt d)
unfolding read_data
read_data_lem e sent pkt d full short g =
    let received = take e.w_length sent in
    let n = length-take e.w_length sent in
    let fits : leb (length received) (length pkt.data_buffer) ≡ true = ground arith in
    let whole : length (received ++ drop (length received) pkt.data_buffer) ≡ 256 = omega (
      arith,
      n,
      length-append received (drop (length received) pkt.data_buffer),
      length-drop (length received) pkt.data_buffer,
    ) in
    EndsIn-bind Fine Ready (run_ioctl (Syscall.ep0_read e.w_length) d) _
      (run_ioctl_lem (Syscall.ep0_read e.w_length) d g) (λ d' h. simp fits ((whole, short), h))

write_data_lem :
    (pkt : Packet) (len : ℕ) (d : Device)
    → Whole pkt
    → len ≤ pkt.header_length
    → Fine d
    → EndsIn Fine (write_data pkt len d)
unfolding write_data
write_data_lem pkt len d (full, short) h g =
    let fits : leb len (length pkt.data_buffer) ≡ true = ground arith in
    simp (fits, write_data) (run_ioctl_lem (Syscall.ep0_write (take len pkt.data_buffer)) d g)

answer_lem :
    (model : Model) (e : Request) (r : Packet × Device)
    → KnownRate model e
    → Ready r
    → EndsIn Fine (answer model e r)
unfolding answer answer_to
answer_lem model e (pkt, d) known (whole, g) =
    EndsIn-bind FineResult Fine (process_control_packet model e pkt d) _
      (process_control_packet_lem model e pkt d whole known g)
      (λ r h. elim (Bool-cases r.0) [
        | inl yes_handled ↦
            let len = min r.1.header_length e.w_length in
            simp (yes_handled, answer_to)
              (EndsIn-if Fine (is_in e) (write_data r.1 len r.2) (ok r.2)
                (write_data_lem r.1 len r.2 h.1 (omega arith) h.0) h.0)
        | inr refused ↦ simp (refused, answer_to) (run_ioctl_lem Syscall.ep0_stall r.2 h.0)
      ])

-- What the host may ask for: it sends at most 256 bytes with a request, and names known rates.
abbrev pub Allowed : Model → Event → Type 0
Allowed model other = Unit {0}
Allowed model (control e garbage sent) =
    (length garbage ≡ 256) × ((is_in e ≡ true) ⊎ (e.w_length ≤ 256)) × KnownRate model e

abbrev pub AllAllowed : Model → List Event → Type 0
AllAllowed model [] = Unit {0}
AllAllowed model (event ∷ events) = Allowed model event × AllAllowed model events

-- the data that comes with a request to the device, if it is one
data_stage_lem :
    (e : Request) (garbage sent : Text) (d : Device)
    → length garbage ≡ 256
    → (is_in e ≡ true) ⊎ (e.w_length ≤ 256)
    → Fine d
    → let pkt : Packet = record { data_buffer = garbage; header_length = 0 } in
      EndsIn Ready (if is_in e then ok (pkt, d) else read_data e sent pkt d)
data_stage_lem e garbage sent d full short g =
    let pkt : Packet = record { data_buffer = garbage; header_length = 0 } in
    elim (Bool-cases (is_in e)) [
      | inl reads ↦ simp reads ((full, omega arith), g)
      | inr writes ↦ elim short [
        | inl reads ↦ absurd cc
        | inr l ↦ simp writes (read_data_lem e sent pkt d full l g)
      ]
    ]

handle_event_lem :
    (model : Model) (event : Event) (d : Device)
    → Allowed model event
    → Fine d
    → EndsIn Fine (handle_event model event d)
unfolding handle_event
handle_event_lem model other d h g = g
handle_event_lem model (control e garbage sent) d (full, short, known) g =
    let pkt : Packet = record { data_buffer = garbage; header_length = 0 } in
    EndsIn-bind Ready Fine (if is_in e then ok (pkt, d) else read_data e sent pkt d) _
      (data_stage_lem e garbage sent d full short g) (λ r h. answer_lem model e r known h)

event_lem :
    (model : Model) (event : Event) (d : Device)
    → Allowed model event
    → Fine d
    → EndsIn Fine (event_usb_control_loop model event d)
unfolding event_usb_control_loop
event_lem model event d h g =
    EndsIn-bind Fine Fine (run_ioctl Syscall.event_fetch d) _
      (run_ioctl_lem Syscall.event_fetch d g) (λ d' g'. handle_event_lem model event d' h g')

-- No sequence of events ends the emulator or has it read or write behind the packet's 256 bytes, on
-- any modem, if the host sends at most 256 bytes with a request and asks the OnlineStation modem
-- for rates of its table only, and the system calls succeed.
pub event_loop_lem :
    (model : Model) (events : List Event) (d : Device)
    → AllAllowed model events
    → Fine d
    → EndsIn Fine (event_loop model events d)
unfolding event_loop
event_loop_lem model [] d h g = g
event_loop_lem model (event ∷ events) d (h, hs) g =
    EndsIn-bind Fine Fine (event_usb_control_loop model event d) _ (event_lem model event d h g)
      (λ d' g'. event_loop_lem model events d' hs g')

handle_event_overrun :
    (model : Model) (e : Request) (garbage sent : Text) (d : Device)
    → length garbage ≡ 256
    → is_in e ≡ false
    → 256 < e.w_length
    → 256 < length sent
    → Fine d
    → handle_event model (control e garbage sent) d ≡ fault Fault.out_of_bounds
unfolding handle_event read_data ioctl
handle_event_overrun model e garbage sent d full writes long long' g =
    elim (Ret-cases (d.context.os.answers d.context.os.clock (Syscall.ep0_read e.w_length))) [
      | inl none_left ↦ absurd (g d.context.os.clock (Syscall.ep0_read e.w_length) none_left)
      | inr (n, granted) ↦
          let received = take e.w_length sent in
          let n = length-take e.w_length sent in
          let too_long : leb (length received) (length garbage) ≡ false = ground arith in
          simp (writes, granted, too_long, handle_event, read_data, ioctl)
    ]

-- A host that sends more than 256 bytes with a request writes behind the packet, on every modem.
pub event_overrun :
    (model : Model) (e : Request) (garbage sent : Text) (d : Device)
    → length garbage ≡ 256
    → is_in e ≡ false
    → 256 < e.w_length
    → 256 < length sent
    → Fine d
    → event_usb_control_loop model (control e garbage sent) d ≡ fault Fault.out_of_bounds
unfolding event_usb_control_loop
event_overrun model e garbage sent d full writes long long' g =
    EndsIn-fault Fine (run_ioctl Syscall.event_fetch d) _ Fault.out_of_bounds
      (run_ioctl_lem Syscall.event_fetch d g)
      (λ d' g'. handle_event_overrun model e garbage sent d' full writes long long' g')

-- A request of the type vendor is none of the standard ones.
is_vendor :
    (e : Request) (code : ℕ)
    → is_event e type_vendor code ≡ true
    → (is_type e type_vendor ≡ true) × ((k : ℕ) → is_event e type_standard k ≡ false)
unfolding is_event is_type
is_vendor e code h = (ground arith, λ k. ground arith)

process_unknown_rate :
    (e : Request) (pkt : Packet) (d : Device)
    → is_event e type_vendor 0x10 ≡ true
    → 14 ≤ e.w_value
    → process_control_packet Model.online_station e pkt d ≡ fault Fault.out_of_bounds
unfolding process_control_packet other_requests handle_control_request online_station_request
process_unknown_rate e pkt d baud behind =
    let (vendor, not_standard) = is_vendor e 0x10 baud in
    let past : ltb e.w_value 14 ≡ false = ground arith in
    simp (
      not_standard req_get_descriptor,
      not_standard req_set_configuration,
      not_standard req_set_interface,
      vendor,
      baud,
      past,
      process_control_packet,
      other_requests,
      handle_control_request,
      online_station_request,
    )

-- Any request of the host for a baud rate from 14 on, with whatever flags and length up to 256, makes
-- the OnlineStation modem read behind its table of rates, where the system calls succeed.
pub event_unknown_rate :
    (e : Request) (garbage sent : Text) (d : Device)
    → length garbage ≡ 256
    → (is_in e ≡ true) ⊎ (e.w_length ≤ 256)
    → is_event e type_vendor 0x10 ≡ true
    → 14 ≤ e.w_value
    → Fine d
    → event_usb_control_loop Model.online_station (control e garbage sent) d
      ≡ fault Fault.out_of_bounds
unfolding event_usb_control_loop handle_event answer
event_unknown_rate e garbage sent d full short baud behind g =
    let pkt : Packet = record { data_buffer = garbage; header_length = 0 } in
    EndsIn-fault Fine (run_ioctl Syscall.event_fetch d) _ Fault.out_of_bounds
      (run_ioctl_lem Syscall.event_fetch d g)
      (λ d' g'.
        EndsIn-fault Ready (if is_in e then ok (pkt, d') else read_data e sent pkt d') _
          Fault.out_of_bounds (data_stage_lem e garbage sent d' full short g')
          (λ (p, d'') h. ap (λ m. m >>= answer_to e) (process_unknown_rate e p d'' baud behind)))
