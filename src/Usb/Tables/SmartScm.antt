-- ===== src/Usb/Tables/SmartScm.antt =====
-- The descriptor tables of src/modem_smartscm.cpp.
use me56ps2_emulator.Prelude.{◌-◌, ◌*◌, List, [], ◌∷◌, ◌++◌, length, replicate}
use me56ps2_emulator.Text.{Text}
use me56ps2_emulator.Usb.Descriptor.{
  DeviceDescriptor, ConfigDescriptor, InterfaceDescriptor, EndpointDescriptor, StringDescriptor,
  string_descriptor, config_bytes, interface_bytes, endpoints_bytes,
}

unfoldable pub str_lang : StringDescriptor
str_lang = string_descriptor (0x0409 ∷ [])

unfoldable pub str_manufacturer : StringDescriptor
str_manufacturer = string_descriptor (
    b'C' ∷ b'o' ∷ b'n' ∷ b'e' ∷ b'x' ∷ b'a' ∷ b'n' ∷ b't' ∷ b' ' ∷ b'S' ∷ b'y' ∷ b's' ∷ b't' ∷ b'e'
    ∷ b'm' ∷ b's' ∷ b',' ∷ b' ' ∷ b'I' ∷ b'n' ∷ b'c' ∷ b'.' ∷ [])

unfoldable pub str_product : StringDescriptor
str_product = string_descriptor (
    b'V' ∷ b'.' ∷ b'9' ∷ b'0' ∷ b' ' ∷ b'M' ∷ b'o' ∷ b'd' ∷ b'e' ∷ b'm' ∷ b' ' ∷ b'w' ∷ b'i' ∷ b't'
    ∷ b'h' ∷ b' ' ∷ b'U' ∷ b'S' ∷ b'B' ∷ b' ' ∷ b'(' ∷ b'G' ∷ b'a' ∷ b'm' ∷ b'e' ∷ b' ' ∷ b'A'
    ∷ b'p' ∷ b'p' ∷ b')' ∷ [])

unfoldable pub str_serial : StringDescriptor
str_serial = string_descriptor (b'N' ∷ b'/' ∷ b'A' ∷ [])

unfoldable pub str_descs : List StringDescriptor
unfolding str_lang str_manufacturer str_product str_serial
str_descs = str_lang ∷ str_manufacturer ∷ str_product ∷ str_serial ∷ []

unfoldable pub dev_desc : DeviceDescriptor
dev_desc = record {
  b_length = 18;
  b_descriptor_type = 1;
  bcd_usb = 0x100;
  b_device_class = 0xff;
  b_device_sub_class = 0xff;
  b_device_protocol = 0xff;
  b_max_packet_size0 = 0x40;
  id_vendor = 0x572;
  id_product = 0x1272;
  bcd_device = 1;
  i_manufacturer = 1;
  i_product = 2;
  i_serial_number = 3;
  b_num_configurations = 1;
}

unfoldable pub config : ConfigDescriptor
config = record {
  b_length = 9;
  b_descriptor_type = 2;
  w_total_length = 74;
  b_num_interfaces = 1;
  b_configuration_value = 1;
  i_configuration = 4;
  bm_attributes = 224;
  b_max_power = 0x5a;
}

unfoldable pub interface : InterfaceDescriptor
interface = record {
  b_length = 9;
  b_descriptor_type = 4;
  b_interface_number = 0;
  b_alternate_setting = 0;
  b_num_endpoints = 8;
  b_interface_class = 0xff;
  b_interface_sub_class = 0xff;
  b_interface_protocol = 0xff;
  i_interface = 5;
}

unfoldable pub endpoints : List EndpointDescriptor
endpoints =
    (record {
      b_length = 7;
      b_descriptor_type = 5;
      b_endpoint_address = 1;
      bm_attributes = 2;
      w_max_packet_size = 64;
      b_interval = 0;
    })
    ∷ (record {
      b_length = 7;
      b_descriptor_type = 5;
      b_endpoint_address = 129;
      bm_attributes = 2;
      w_max_packet_size = 64;
      b_interval = 0;
    })
    ∷ (record {
      b_length = 7;
      b_descriptor_type = 5;
      b_endpoint_address = 2;
      bm_attributes = 2;
      w_max_packet_size = 64;
      b_interval = 0;
    })
    ∷ (record {
      b_length = 7;
      b_descriptor_type = 5;
      b_endpoint_address = 130;
      bm_attributes = 2;
      w_max_packet_size = 64;
      b_interval = 0;
    })
    ∷ (record {
      b_length = 7;
      b_descriptor_type = 5;
      b_endpoint_address = 3;
      bm_attributes = 2;
      w_max_packet_size = 64;
      b_interval = 0;
    })
    ∷ (record {
      b_length = 7;
      b_descriptor_type = 5;
      b_endpoint_address = 131;
      bm_attributes = 2;
      w_max_packet_size = 64;
      b_interval = 0;
    })
    ∷ (record {
      b_length = 7;
      b_descriptor_type = 5;
      b_endpoint_address = 4;
      bm_attributes = 2;
      w_max_packet_size = 64;
      b_interval = 0;
    })
    ∷ (record {
      b_length = 7;
      b_descriptor_type = 5;
      b_endpoint_address = 132;
      bm_attributes = 2;
      w_max_packet_size = 64;
      b_interval = 0;
    })
    ∷ []

-- `cfg_descs`: `struct usb_config_descriptors` has eight places for endpoints, zero behind these.
unfoldable pub cfg_descs : Text
unfolding config interface endpoints
cfg_descs =
    config_bytes config
    ++ (interface_bytes interface
        ++ (endpoints_bytes endpoints ++ replicate (7 * (8 - length endpoints)) 0))
