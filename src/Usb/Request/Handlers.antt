-- ===== src/Usb/Request/Handlers.antt =====
-- `process_control_packet` of src/main_app.cpp with the `handle_control_request` of each modem.
use me56ps2_emulator.Usb.Gadget
use me56ps2_emulator.Usb.Descriptor.{
  string_bytes, string_descriptors_num, dt_string, dt_config, device_bytes, dt_device,
  EndpointDescriptor,
}
use me56ps2_emulator.Usb.Request.Model.{
  string_descriptors, req_get_descriptor, device_descriptor, req_set_interface, is_type,
  req_set_configuration, config_descriptors, type_standard, type_vendor, type_class,
  get_descriptor_type, is_event, low_byte, Request,
}
use me56ps2_emulator.Usb.Device.{is_started, Thread, Device}
use me56ps2_emulator.Modem.At.{Model}
use me56ps2_emulator.Usb.Tables.Lucent
use me56ps2_emulator.Usb.Tables.Omron
use me56ps2_emulator.Usb.Tables.OnlineStation
use me56ps2_emulator.Usb.Tables.SmartScm
use me56ps2_emulator.Prelude.{
  false, none, ◌||◌, ◌/◌, ltb, ◌%◌, some, set, ◌==◌, get_elem?, Option, min, true, [], List, ℕ, ◌+◌,
  ◌*◌, Bool, ◌&&◌, ◌∷◌, ◌++◌, leb, length, take, drop, if◌then◌else◌,
}
use me56ps2_emulator.Text.{Text}
use me56ps2_emulator.Os.{Fault, Outcome, ok, fault, ◌>>=◌}
use me56ps2_emulator.Context.{handle_disconnect}

-- `struct usb_packet_control`: the buffer of 256 bytes, and `header.length`
pub record Packet : Type 0 where
  pub data_buffer : Text
  pub header_length : ℕ

-- `memcpy(pkt->data, source, n)`, which must stay inside both
unfoldable pub copy_in : Text → ℕ → Packet → Outcome Packet
copy_in source n pkt =
    if leb n (length source) && leb n (length pkt.data_buffer)
    then ok (record pkt { data_buffer = take n source ++ drop n pkt.data_buffer })
    else fault Fault.out_of_bounds

-- `pkt->data[i] = value`, which must stay inside
unfoldable pub write_at : ℕ → ℕ → Packet → Outcome Packet
write_at i value pkt =
    if ltb i (length pkt.data_buffer)
    then ok (record pkt { data_buffer = set pkt.data_buffer i value })
    else fault Fault.out_of_bounds

abbrev pub with_length : ℕ → Packet → Packet
with_length n pkt = record pkt { header_length = n }

-- what a handler comes to: its result, the packet and the device
abbrev pub Handled : Type 0
Handled = Bool × Packet × Device

abbrev pub handled : Packet → Device → Outcome Handled
handled pkt d = ok (true, pkt, d)

abbrev hang_up : Device → Device
hang_up d = record d { context = handle_disconnect d.context }

-- `config.wTotalLength`, the third and fourth byte
abbrev pub total_length : Text → ℕ
total_length (_ ∷ _ ∷ lo ∷ hi ∷ _) = lo + 256 * hi
total_length _ = 0

-- `bLength`, the first byte
abbrev pub length_byte : Text → ℕ
length_byte [] = 0
length_byte (n ∷ _) = n

-- `config.bMaxPower`, the ninth byte
abbrev pub max_power : Text → ℕ
max_power (_ ∷ _ ∷ _ ∷ _ ∷ _ ∷ _ ∷ _ ∷ _ ∷ p ∷ _) = p
max_power _ = 0

-- `ep_enable` and a new thread for the endpoint, where there is none yet
unfoldable pub start_thread : Thread → Option EndpointDescriptor → Device → Outcome Device
start_thread thread none d = fault Fault.out_of_bounds
start_thread thread (some endpoint) d =
    if is_started thread d.threads
    then ok d
    else (Gadget.ep_enable endpoint d.context.os >>= λ r.
        ok
          (record { context = record d.context { os = r.1 }; threads = (thread, r.0) ∷ d.threads }))

abbrev pub Plan : Type 0
Plan = List (Thread × Option EndpointDescriptor)

unfoldable pub start_threads : Plan → Device → Outcome Device
start_threads [] d = ok d
start_threads ((thread, endpoint) ∷ plan) d =
    start_thread thread endpoint d >>= λ d'. start_threads plan d'

-- which threads the `handle_set_configuration` of each modem starts, for which endpoints, in order
abbrev pub omron_plan : Plan
omron_plan =
    (Thread.bulk_in, get_elem? Omron.endpoints 0)
    ∷ (Thread.bulk_out, get_elem? Omron.endpoints 1)
    ∷ []

abbrev pub online_station_plan : Plan
online_station_plan =
    (Thread.bulk_in, get_elem? OnlineStation.endpoints 0)
    ∷ (Thread.bulk_out, get_elem? OnlineStation.endpoints 1)
    ∷ (Thread.intr_in, get_elem? OnlineStation.endpoints 2)
    ∷ []

abbrev pub lucent_plan : ℕ → Plan
lucent_plan id =
    if id == 2
    then (Thread.intr_in, some Lucent.endpoint1)
      ∷ (Thread.bulk_out, get_elem? Lucent.endpoints2 0)
      ∷ (Thread.bulk_in, get_elem? Lucent.endpoints2 1)
      ∷ []
    else []

abbrev pub smart_scm_plan : Plan
smart_scm_plan =
    (Thread.control_out, get_elem? SmartScm.endpoints 0)
    ∷ (Thread.control_in, get_elem? SmartScm.endpoints 1)
    ∷ (Thread.data_out, get_elem? SmartScm.endpoints 4)
    ∷ (Thread.data_in, get_elem? SmartScm.endpoints 5)
    ∷ (Thread.gpio_out, get_elem? SmartScm.endpoints 6)
    ∷ (Thread.gpio_in, get_elem? SmartScm.endpoints 7)
    ∷ []

unfoldable pub thread_plan : Model → ℕ → Plan
thread_plan Model.omron id = omron_plan
thread_plan Model.online_station id = online_station_plan
thread_plan Model.lucent id = lucent_plan id
thread_plan Model.smart_scm id = smart_scm_plan

-- `Modem::handle_set_configuration`
unfoldable pub configure : Model → ℕ → Packet → Device → Outcome Handled
configure model id pkt d = do
  drawn ← Gadget.vbus_draw (max_power (config_descriptors model id)) d.context.os
  configured ← Gadget.configure drawn.1
  handled (with_length 0 pkt) (record d { context = record d.context { os = configured.1 } })

-- `handle_set_configuration` of each modem
unfoldable pub handle_set_configuration : Model → Request → Packet → Device → Outcome Handled
handle_set_configuration model e pkt d = do
  started ← start_threads (thread_plan model (low_byte e.w_value)) d
  configure model (low_byte e.w_value) pkt started

-- `OmronModem::handle_control_request`
unfoldable pub omron_request : Request → Packet → Device → Outcome Handled
omron_request e pkt d =
    if is_event e type_vendor 0x01
    then (if (e.w_value % 2 == 0) && (e.w_value / 256 % 2 == 1)
        then handled (with_length 0 pkt) (hang_up d)
        else handled (with_length 0 pkt) d)
    else if is_event e type_vendor 0x05
    then (write_at 0 0x31 pkt >>= λ p. handled (with_length 1 p) d)
    else if is_type e type_vendor
    then handled (with_length 0 pkt) d
    else ok (false, pkt, d)

-- the number of baud rates that the table of `set baud rate` has
abbrev pub rates_length : ℕ
rates_length = 14

-- `OnlineStationModem::handle_control_request`
unfoldable pub online_station_request : Request → Packet → Device → Outcome Handled
online_station_request e pkt d =
    if is_event e type_vendor 0x10
    then (if ltb e.w_value rates_length then handled pkt d else fault Fault.out_of_bounds)
    else if is_event e type_vendor 0x11
    then (if e.w_value % 2 == 0 then handled pkt (hang_up d) else handled pkt d)
    else if is_event e type_vendor 0x12
    then handled pkt d
    else if is_event e type_vendor 0xd0
    then (write_at 0 0x01 pkt >>= λ p. write_at 1 0x00 p >>= λ q. handled (with_length 2 q) d)
    else if is_event e type_vendor 0xe0
    then handled pkt d
    else if is_type e type_vendor
    then handled (with_length 0 pkt) d
    else ok (false, pkt, d)

-- `LucentModem::handle_control_request`
unfoldable pub lucent_request : Request → Packet → Device → Outcome Handled
lucent_request e pkt d =
    if is_event e type_class 0x20
    then handled pkt d
    else if is_event e type_class 0x22
    then (if e.w_value % 2 == 0 then handled pkt (hang_up d) else handled pkt d)
    else if is_type e type_class
    then handled pkt d
    else ok (false, pkt, d)

-- `handle_control_request`; the SmartSCM modem has that of the base class.
unfoldable pub handle_control_request : Model → Request → Packet → Device → Outcome Handled
unfolding omron_request online_station_request lucent_request
handle_control_request Model.omron e pkt d = omron_request e pkt d
handle_control_request Model.online_station e pkt d = online_station_request e pkt d
handle_control_request Model.lucent e pkt d = lucent_request e pkt d
handle_control_request Model.smart_scm e pkt d = handled pkt d

unfoldable pub get_string : Text → Request → Packet → Device → Outcome Handled
get_string descriptor e pkt d =
    let len = min e.w_length (length_byte descriptor) in
    copy_in descriptor len pkt >>= λ p.
    write_at 0 (len % 256) p >>= λ q. handled (with_length len q) d

-- USB_REQ_GET_DESCRIPTOR, with `none` where it is none of the three kinds
unfoldable pub get_descriptor : Model → Request → Packet → Device → Option (Outcome Handled)
unfolding get_string
get_descriptor model e pkt d =
    if get_descriptor_type e == dt_device
    then some (
        copy_in (device_bytes (device_descriptor model)) 18 pkt >>= λ p.
        handled (with_length 18 p) d)
    else if get_descriptor_type e == dt_config
    then (let source = config_descriptors model (low_byte e.w_value) in
        some (
          copy_in source (total_length source) pkt >>= λ p.
          handled (with_length (total_length source) p) d))
    else if get_descriptor_type e == dt_string
    then (if leb string_descriptors_num (low_byte e.w_value)
        then some (ok (false, pkt, d))
        else elim (get_elem? (string_descriptors model) (low_byte e.w_value)) [
          | none ↦ some (fault Fault.out_of_bounds)
          | some descriptor ↦ some (get_string (string_bytes descriptor) e pkt d)
        ])
    else none

-- the branches behind USB_REQ_GET_DESCRIPTOR
unfoldable pub other_requests : Model → Request → Packet → Device → Outcome Handled
other_requests model e pkt d =
    if is_event e type_standard req_set_configuration
    then handle_set_configuration model e pkt d
    else if is_event e type_standard req_set_interface
    then handled (with_length 0 pkt) d
    else if is_type e type_vendor || is_type e type_class
    then handle_control_request model e pkt d
    else ok (false, pkt, d)

unfoldable pub process_control_packet : Model → Request → Packet → Device → Outcome Handled
unfolding get_descriptor other_requests
process_control_packet model e pkt d =
    if is_event e type_standard req_get_descriptor
    then elim (get_descriptor model e pkt d) [
      | some result ↦ result
      | none ↦ other_requests model e pkt d
    ]
    else other_requests model e pkt d
