-- ===== src/Usb/Request/Model.antt =====
-- `usb_raw_control_event` (src/usb_raw_control_event.cpp) and what the modems tell of themselves:
-- `device_descriptor`, `config_descriptors` and `string_descriptors` of the four sources.
use me56ps2_emulator.Prelude.{
  ℕ, ◌*◌, ◌/◌, ◌%◌, Bool, ◌&&◌, List, [], ◌∷◌, String, ◌==◌, if◌then◌else◌,
}
use me56ps2_emulator.Text.{Text}
use me56ps2_emulator.Modem.At.{Model}
use me56ps2_emulator.Usb.Descriptor.{
  DeviceDescriptor, StringDescriptor, dt_device, dt_config, dt_string, dt_interface, dt_endpoint,
}
use me56ps2_emulator.Usb.Tables.Lucent
use me56ps2_emulator.Usb.Tables.Omron
use me56ps2_emulator.Usb.Tables.OnlineStation
use me56ps2_emulator.Usb.Tables.SmartScm

-- `struct usb_ctrlrequest`: bytes, and 16-bit numbers
pub record Request : Type 0 where
  pub bm_request_type : ℕ
  pub b_request : ℕ
  pub w_value : ℕ
  pub w_index : ℕ
  pub w_length : ℕ

abbrev pub type_standard : ℕ
type_standard = 0

abbrev pub type_class : ℕ
type_class = 0x20

abbrev pub type_vendor : ℕ
type_vendor = 0x40

abbrev pub req_get_descriptor : ℕ
req_get_descriptor = 6

abbrev pub req_set_configuration : ℕ
req_set_configuration = 9

abbrev pub req_set_interface : ℕ
req_set_interface = 11

-- `& USB_TYPE_MASK`, the bits 5 and 6
unfoldable pub get_request_type : Request → ℕ
get_request_type e = e.bm_request_type / 32 % 4 * 32

unfoldable pub get_request : Request → ℕ
get_request e = e.b_request

-- `wValue >> 8`
unfoldable pub get_descriptor_type : Request → ℕ
get_descriptor_type e = e.w_value / 256

unfoldable pub is_type : Request → ℕ → Bool
unfolding get_request_type
is_type e request_type = get_request_type e == request_type

unfoldable pub is_event : Request → ℕ → ℕ → Bool
unfolding is_type get_request
is_event e request_type request = is_type e request_type && get_request e == request

-- `& 0x00ff`
abbrev pub low_byte : ℕ → ℕ
low_byte w = w % 256

unfoldable pub get_request_type_string : Request → String
unfolding get_request_type
get_request_type_string e =
    if get_request_type e == type_standard
    then "USB_TYPE_STANDARD"
    else if get_request_type e == type_class
    then "USB_TYPE_CLASS"
    else if get_request_type e == type_vendor
    then "USB_TYPE_VENDOR"
    else "unknown"

-- the maps from numbers to names, with what a missing key gives
abbrev pub name_of : List (ℕ × String) → ℕ → String
name_of [] n = "unknown"
name_of ((k, name) ∷ names) n = if k == n then name else name_of names n

unfoldable pub get_request_string : Request → String
unfolding get_request
get_request_string e =
    name_of
      ((req_get_descriptor, "USB_REQ_GET_DESCRIPTOR")
        ∷ (req_set_configuration, "USB_REQ_SET_CONFIGURATION")
        ∷ (req_set_interface, "USB_REQ_SET_INTERFACE")
        ∷ [])
      (get_request e)

unfoldable pub get_descriptor_type_string : Request → String
unfolding get_descriptor_type
get_descriptor_type_string e =
    name_of
      ((dt_device, "USB_DT_DEVICE")
        ∷ (dt_config, "USB_DT_CONFIG")
        ∷ (dt_string, "USB_DT_STRING")
        ∷ (dt_interface, "USB_DT_INTERFACE")
        ∷ (dt_endpoint, "USB_DT_ENDPOINT")
        ∷ (6, "USB_DT_DEVICE_QUALIFIER")
        ∷ (7, "USB_DT_OTHER_SPEED_CONFIG")
        ∷ (8, "USB_DT_INTERFACE_POWER")
        ∷ [])
      (get_descriptor_type e)

unfoldable pub device_descriptor : Model → DeviceDescriptor
device_descriptor Model.lucent = Lucent.dev_desc
device_descriptor Model.omron = Omron.dev_desc
device_descriptor Model.online_station = OnlineStation.dev_desc
device_descriptor Model.smart_scm = SmartScm.dev_desc

-- `config_descriptors(id)`: the bytes of the structure that it refers to
unfoldable pub config_descriptors : Model → ℕ → Text
config_descriptors Model.lucent id = if id == 1 then Lucent.cfg2_descs else Lucent.cfg1_descs
config_descriptors Model.omron id = Omron.cfg_descs
config_descriptors Model.online_station id = OnlineStation.cfg_descs
config_descriptors Model.smart_scm id = SmartScm.cfg_descs

unfoldable pub string_descriptors : Model → List StringDescriptor
string_descriptors Model.lucent = Lucent.str_descs
string_descriptors Model.omron = Omron.str_descs
string_descriptors Model.online_station = OnlineStation.str_descs
string_descriptors Model.smart_scm = SmartScm.str_descs
