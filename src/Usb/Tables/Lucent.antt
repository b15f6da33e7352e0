-- ===== src/Usb/Tables/Lucent.antt =====
-- The descriptor tables of src/modem_lucent.cpp.
use me56ps2_emulator.Prelude.{List, [], ◌∷◌, ◌++◌}
use me56ps2_emulator.Text.{Text}
use me56ps2_emulator.Usb.Descriptor.{
  DeviceDescriptor, ConfigDescriptor, InterfaceDescriptor, EndpointDescriptor, StringDescriptor,
  string_descriptor, config_bytes, interface_bytes, endpoint_bytes, endpoints_bytes,
}

unfoldable pub str_lang : StringDescriptor
str_lang = string_descriptor (0x0409 ∷ [])

unfoldable pub str_manufacturer : StringDescriptor
str_manufacturer = string_descriptor (
    b'M' ∷ b'u' ∷ b'l' ∷ b't' ∷ b'i' ∷ b'-' ∷ b'T' ∷ b'e' ∷ b'c' ∷ b'h' ∷ b' ' ∷ b'S' ∷ b'y' ∷ b's'
    ∷ b't' ∷ b'e' ∷ b'm' ∷ b's' ∷ b',' ∷ b' ' ∷ b'I' ∷ b'n' ∷ b'c' ∷ b'.' ∷ [])

unfoldable pub str_product : StringDescriptor
str_product =
    string_descriptor (
      b'M' ∷ b'u' ∷ b'l' ∷ b't' ∷ b'i' ∷ b'M' ∷ b'o' ∷ b'd' ∷ b'e' ∷ b'm' ∷ b'U' ∷ b'S' ∷ b'B' ∷ [])

unfoldable pub str_configuration : StringDescriptor
str_configuration = string_descriptor (
    b'M' ∷ b'u' ∷ b'l' ∷ b't' ∷ b'i' ∷ b'-' ∷ b'T' ∷ b'e' ∷ b'c' ∷ b'h' ∷ b' ' ∷ b'N' ∷ b'T' ∷ b' '
    ∷ b'M' ∷ b'o' ∷ b'd' ∷ b'e' ∷ b'm' ∷ b' ' ∷ b'U' ∷ b'S' ∷ b'B' ∷ [])

unfoldable pub str_descs : List StringDescriptor
unfolding str_lang str_manufacturer str_product str_configuration
str_descs = str_lang ∷ str_manufacturer ∷ str_product ∷ str_configuration ∷ []

unfoldable pub dev_desc : DeviceDescriptor
dev_desc = record {
  b_length = 18;
  b_descriptor_type = 1;
  bcd_usb = 0x100;
  b_device_class = 2;
  b_device_sub_class = 0;
  b_device_protocol = 0;
  b_max_packet_size0 = 0x40;
  id_vendor = 0x6e0;
  id_product = 0xf103;
  bcd_device = 0x100;
  i_manufacturer = 1;
  i_product = 2;
  i_serial_number = 0;
  b_num_configurations = 2;
}

unfoldable pub config1 : ConfigDescriptor
config1 = record {
  b_length = 9;
  b_descriptor_type = 2;
  w_total_length = 41;
  b_num_interfaces = 2;
  b_configuration_value = 1;
  i_configuration = 0;
  bm_attributes = 160;
  b_max_power = 0xc8;
}

unfoldable pub config1_interface0 : InterfaceDescriptor
config1_interface0 = record {
  b_length = 9;
  b_descriptor_type = 4;
  b_interface_number = 0;
  b_alternate_setting = 0;
  b_num_endpoints = 0;
  b_interface_class = 0xff;
  b_interface_sub_class = 0xff;
  b_interface_protocol = 0xff;
  i_interface = 0;
}

unfoldable pub config1_interface1 : InterfaceDescriptor
config1_interface1 = record {
  b_length = 9;
  b_descriptor_type = 4;
  b_interface_number = 1;
  b_alternate_setting = 0;
  b_num_endpoints = 2;
  b_interface_class = 0xff;
  b_interface_sub_class = 0xff;
  b_interface_protocol = 0xff;
  i_interface = 0;
}

unfoldable pub config1_endpoints : List EndpointDescriptor
config1_endpoints =
    (record {
      b_length = 7;
      b_descriptor_type = 5;
      b_endpoint_address = 2;
      bm_attributes = 2;
      w_max_packet_size = 64;
      b_interval = 0;
    })
    ∷ (record {
      b_length = 7;
      b_descriptor_type = 5;
      b_endpoint_address = 132;
      bm_attributes = 3;
      w_max_packet_size = 0x3f;
      b_interval = 2;
    })
    ∷ []

unfoldable pub cfg1_descs : Text
unfolding config1 config1_interface0 config1_interface1 config1_endpoints
cfg1_descs =
    config_bytes config1
    ++ (interface_bytes config1_interface0
        ++ (interface_bytes config1_interface1 ++ endpoints_bytes config1_endpoints))

unfoldable pub config2 : ConfigDescriptor
config2 = record {
  b_length = 9;
  b_descriptor_type = 2;
  w_total_length = 0x3c;
  b_num_interfaces = 2;
  b_configuration_value = 2;
  i_configuration = 0;
  bm_attributes = 160;
  b_max_power = 0xc8;
}

unfoldable pub config2_interface1 : InterfaceDescriptor
config2_interface1 = record {
  b_length = 9;
  b_descriptor_type = 4;
  b_interface_number = 0;
  b_alternate_setting = 0;
  b_num_endpoints = 1;
  b_interface_class = 2;
  b_interface_sub_class = 2;
  b_interface_protocol = 1;
  i_interface = 0;
}

unfoldable pub config2_interface2 : InterfaceDescriptor
config2_interface2 = record {
  b_length = 9;
  b_descriptor_type = 4;
  b_interface_number = 1;
  b_alternate_setting = 0;
  b_num_endpoints = 2;
  b_interface_class = 0xa;
  b_interface_sub_class = 2;
  b_interface_protocol = 1;
  i_interface = 0;
}

unfoldable pub cdc_desc : Text
cdc_desc = 0x03 ∷ 0x24 ∷ 0x00 ∷ 0x05 ∷ 0x24 ∷ 0x01 ∷ 0x03 ∷ 0x01 ∷ 0x04 ∷ 0x24 ∷ 0x02 ∷ 0x07 ∷ []

unfoldable pub endpoint1 : EndpointDescriptor
endpoint1 = record {
  b_length = 7;
  b_descriptor_type = 5;
  b_endpoint_address = 132;
  bm_attributes = 3;
  w_max_packet_size = 0x32;
  b_interval = 128;
}

unfoldable pub endpoints2 : List EndpointDescriptor
endpoints2 =
    (record {
      b_length = 7;
      b_descriptor_type = 5;
      b_endpoint_address = 2;
      bm_attributes = 2;
      w_max_packet_size = 64;
      b_interval = 0;
    })
    ∷ (record {
      b_length = 7;
      b_descriptor_type = 5;
      b_endpoint_address = 134;
      bm_attributes = 2;
      w_max_packet_size = 64;
      b_interval = 0;
    })
    ∷ []

unfoldable pub cfg2_descs : Text
unfolding config2 config2_interface1 config2_interface2 cdc_desc endpoint1 endpoints2
cfg2_descs =
    config_bytes config2
    ++ (interface_bytes config2_interface1
        ++ (cdc_desc
            ++ (endpoint_bytes endpoint1
                ++ (interface_bytes config2_interface2 ++ endpoints_bytes endpoints2))))
