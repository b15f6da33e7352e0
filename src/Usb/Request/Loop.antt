-- ===== src/Usb/Request/Loop.antt =====
-- `event_usb_control_loop` of src/main_app.cpp: one event of the gadget.
use me56ps2_emulator.Prelude.{
  ℕ, ◌/◌, ◌%◌, Bool, true, false, List, [], ◌∷◌, ◌++◌, ◌==◌, min, length, take, drop, leb,
  if◌then◌else◌,
}
use me56ps2_emulator.Text.{Text}
use me56ps2_emulator.Modem.At.{Model}
use me56ps2_emulator.Os.{Fault, Outcome, ok, fault, ◌>>=◌, Syscall}
use me56ps2_emulator.Usb.Device.{Device, ioctl}
use me56ps2_emulator.Usb.Request.Model.{Request}
use me56ps2_emulator.Usb.Request.Handlers.{Packet, process_control_packet}

-- What `event_fetch` fetches. A control event comes with the request, the bytes that the packet
-- buffer happens to hold, and those that the host has sent with a request to the device.
pub data Event : Type 0 where
  control : Request → Text → Text → Event
  other : Event

-- `bRequestType & USB_ENDPOINT_DIR_MASK`, the upper bit
abbrev pub is_in : Request → Bool
is_in e = e.bm_request_type / 128 % 2 == 1

abbrev pub run_ioctl : Syscall → Device → Outcome Device
run_ioctl call d =
    ioctl call d.context.os >>= λ r. ok (record d { context = record d.context { os = r.1 } })

-- `ep0_read` asks for `wLength` bytes and writes what it gets to the front of the buffer; more than
-- the buffer holds would be written behind it.
unfoldable pub read_data : Request → Text → Packet → Device → Outcome (Packet × Device)
read_data e sent pkt d = run_ioctl (Syscall.ep0_read e.w_length) d >>= λ d'.
    (let received = take e.w_length sent in
      if leb (length received) (length pkt.data_buffer)
      then ok (
        record {
          data_buffer = received ++ drop (length received) pkt.data_buffer;
          header_length = e.w_length;
        },
        d',
      )
      else fault Fault.out_of_bounds)

-- `ep0_write` of the packet: what is read behind its buffer is a fault.
unfoldable pub write_data : Packet → ℕ → Device → Outcome Device
write_data pkt len d =
    if leb len (length pkt.data_buffer)
    then run_ioctl (Syscall.ep0_write (take len pkt.data_buffer)) d
    else fault Fault.out_of_bounds

-- the answer to what `process_control_packet` made of a request
unfoldable pub answer_to : Request → Bool × Packet × Device → Outcome Device
unfolding write_data
answer_to e r = elim r.0 [
  | false ↦ run_ioctl Syscall.ep0_stall r.2
  | true ↦
      let len = min r.1.header_length e.w_length in
      if is_in e then write_data r.1 len r.2 else ok r.2
]

unfoldable pub answer : Model → Request → Packet × Device → Outcome Device
answer model e (pkt, d) = process_control_packet model e pkt d >>= answer_to e

unfoldable pub handle_event : Model → Event → Device → Outcome Device
handle_event model other d = ok d
handle_event model (control e garbage sent) d =
    let pkt : Packet = record { data_buffer = garbage; header_length = 0 } in
    (if is_in e then ok (pkt, d) else read_data e sent pkt d) >>= λ r. answer model e r

-- `event_fetch`, which throws where it fails, and what is done with the event
unfoldable pub event_usb_control_loop : Model → Event → Device → Outcome Device
unfolding handle_event
event_usb_control_loop model event d =
    run_ioctl Syscall.event_fetch d >>= λ d'. handle_event model event d'

-- The loop over the events that come, as far as they have come.
unfoldable pub event_loop : Model → List Event → Device → Outcome Device
unfolding event_usb_control_loop
event_loop model [] d = ok d
event_loop model (event ∷ events) d =
    event_usb_control_loop model event d >>= λ d'. event_loop model events d'
