-- ===== src/Usb/Request/Log.antt =====
-- What `usb_raw_control_event::print_debug_log` (src/usb_raw_control_event.cpp) prints.
use me56ps2_emulator.Prelude.{ℕ, ◌++◌, List, [], ◌∷◌, String, ◌==◌, if◌then◌else◌}
use me56ps2_emulator.Text.{Text, bytes}
use me56ps2_emulator.Text.Decimal.{decimal}
use me56ps2_emulator.Text.Hex.{hex}
use me56ps2_emulator.Usb.Request.Model.{
  Request, type_standard, req_get_descriptor, is_event, get_request_type, get_request_type_string,
  get_request, get_request_string, get_descriptor_type, get_descriptor_type_string,
}

-- `USB_RAW_EVENT_...`
abbrev raw_event_control : ℕ
raw_event_control = 2

unfoldable pub event_name : List (ℕ × String) → ℕ → Text
event_name [] type = bytes "unknown(" ++ decimal type ++ bytes ")"
event_name ((k, name) ∷ names) type = if k == type then bytes name else event_name names type

abbrev pub event_names : List (ℕ × String)
event_names =
    (1, "USB_RAW_EVENT_CONNECT")
    ∷ (2, "USB_RAW_EVENT_CONTROL")
    ∷ (3, "USB_RAW_EVENT_SUSPEND")
    ∷ (4, "USB_RAW_EVENT_RESUME")
    ∷ (5, "USB_RAW_EVENT_RESET")
    ∷ (6, "USB_RAW_EVENT_DISCONNECT")
    ∷ []

abbrev hex_field : String → ℕ → ℕ → Text
hex_field label width n = bytes label ++ bytes "0x" ++ hex width n

abbrev named : String → String → ℕ → Text
named label name n = bytes label ++ bytes name ++ bytes " (" ++ hex_field "" 2 n ++ bytes ")\n"

unfoldable pub control_log : Request → Text
control_log e =
    let descriptor =
      named "  descriptor type = " (get_descriptor_type_string e) (get_descriptor_type e) in
    named "  request type = " (get_request_type_string e) (get_request_type e)
    ++ named "  request = " (get_request_string e) (get_request e)
    ++ hex_field "  wIndex = " 4 e.w_index
    ++ hex_field ", wLength = " 4 e.w_length
    ++ hex_field ", wValue = " 4 e.w_value
    ++ bytes "\n"
    ++ (if is_event e type_standard req_get_descriptor then descriptor else [])

unfoldable pub print_debug_log : ℕ → ℕ → Request → Text
print_debug_log type length e =
    bytes "event type: "
    ++ event_name event_names type
    ++ bytes ", length: "
    ++ decimal length
    ++ bytes "\n"
    ++ (if type == raw_event_control then control_log e else [])
