-- ===== src/Usb/Descriptor.antt =====
-- The descriptors of <linux/usb/ch9.h> and src/main_app.h, and how they lie in memory: packed, with
-- 16-bit fields in little-endian order. The constants are those of the USB specification.
use me56ps2_emulator.Prelude.{ℕ, ◌+◌, ◌*◌, ◌/◌, ◌%◌, List, [], ◌∷◌, ◌++◌, length}
use me56ps2_emulator.Text.{Text}

module _ where
  abbrev pub dt_device : ℕ
  dt_device = 1

  abbrev pub dt_config : ℕ
  dt_config = 2

  abbrev pub dt_string : ℕ
  dt_string = 3

  abbrev pub dt_interface : ℕ
  dt_interface = 4

  abbrev pub dt_endpoint : ℕ
  dt_endpoint = 5

abbrev pub max_packet_size_bulk : ℕ
max_packet_size_bulk = 64

abbrev pub string_descriptors_num : ℕ
string_descriptors_num = 4

abbrev pub control_data_buffer_size : ℕ
control_data_buffer_size = 256

abbrev pub le16 : ℕ → Text
le16 x = (x % 256) ∷ (x / 256 % 256) ∷ []

-- `struct usb_device_descriptor`
pub record DeviceDescriptor : Type 0 where
  pub b_length : ℕ
  pub b_descriptor_type : ℕ
  pub bcd_usb : ℕ
  pub b_device_class : ℕ
  pub b_device_sub_class : ℕ
  pub b_device_protocol : ℕ
  pub b_max_packet_size0 : ℕ
  pub id_vendor : ℕ
  pub id_product : ℕ
  pub bcd_device : ℕ
  pub i_manufacturer : ℕ
  pub i_product : ℕ
  pub i_serial_number : ℕ
  pub b_num_configurations : ℕ

-- `struct usb_config_descriptor`
pub record ConfigDescriptor : Type 0 where
  pub b_length : ℕ
  pub b_descriptor_type : ℕ
  pub w_total_length : ℕ
  pub b_num_interfaces : ℕ
  pub b_configuration_value : ℕ
  pub i_configuration : ℕ
  pub bm_attributes : ℕ
  pub b_max_power : ℕ

-- `struct usb_interface_descriptor`
pub record InterfaceDescriptor : Type 0 where
  pub b_length : ℕ
  pub b_descriptor_type : ℕ
  pub b_interface_number : ℕ
  pub b_alternate_setting : ℕ
  pub b_num_endpoints : ℕ
  pub b_interface_class : ℕ
  pub b_interface_sub_class : ℕ
  pub b_interface_protocol : ℕ
  pub i_interface : ℕ

-- `struct _usb_endpoint_descriptor`
pub record EndpointDescriptor : Type 0 where
  pub b_length : ℕ
  pub b_descriptor_type : ℕ
  pub b_endpoint_address : ℕ
  pub bm_attributes : ℕ
  pub w_max_packet_size : ℕ
  pub b_interval : ℕ

-- `struct _usb_string_descriptor`, whose characters are ASCII but for the language of the first
pub record StringDescriptor : Type 0 where
  pub b_length : ℕ
  pub b_descriptor_type : ℕ
  pub w_data : List ℕ

-- The bytes of each in memory.
abbrev pub device_bytes : DeviceDescriptor → Text
device_bytes d =
    (d.b_length ∷ d.b_descriptor_type ∷ [])
    ++ (le16 d.bcd_usb
        ++ ((d.b_device_class ∷ d.b_device_sub_class ∷ d.b_device_protocol ∷ d.b_max_packet_size0
              ∷ [])
            ++ (le16 d.id_vendor
                ++ (le16 d.id_product
                    ++ (le16 d.bcd_device
                        ++ (d.i_manufacturer ∷ d.i_product ∷ d.i_serial_number
                            ∷ d.b_num_configurations ∷ []))))))

abbrev pub config_bytes : ConfigDescriptor → Text
config_bytes d =
    (d.b_length ∷ d.b_descriptor_type ∷ [])
    ++ (le16 d.w_total_length
        ++ (d.b_num_interfaces ∷ d.b_configuration_value ∷ d.i_configuration ∷ d.bm_attributes
            ∷ d.b_max_power ∷ []))

abbrev pub interface_bytes : InterfaceDescriptor → Text
interface_bytes d =
    d.b_length ∷ d.b_descriptor_type ∷ d.b_interface_number ∷ d.b_alternate_setting
    ∷ d.b_num_endpoints ∷ d.b_interface_class ∷ d.b_interface_sub_class ∷ d.b_interface_protocol
    ∷ d.i_interface ∷ []

abbrev pub endpoint_bytes : EndpointDescriptor → Text
endpoint_bytes d =
    (d.b_length ∷ d.b_descriptor_type ∷ d.b_endpoint_address ∷ d.bm_attributes ∷ [])
    ++ (le16 d.w_max_packet_size ++ d.b_interval ∷ [])

abbrev pub endpoints_bytes : List EndpointDescriptor → Text
endpoints_bytes [] = []
endpoints_bytes (d ∷ ds) = endpoint_bytes d ++ endpoints_bytes ds

abbrev pub wide : List ℕ → Text
wide [] = []
wide (x ∷ xs) = le16 x ++ wide xs

abbrev pub string_bytes : StringDescriptor → Text
string_bytes d = d.b_length ∷ d.b_descriptor_type ∷ wide d.w_data

-- `sizeof(str)` is the length of the whole.
abbrev pub string_descriptor : List ℕ → StringDescriptor
string_descriptor w_data = record {
  b_length = 2 + 2 * length w_data;
  b_descriptor_type = dt_string;
  w_data = w_data;
}
