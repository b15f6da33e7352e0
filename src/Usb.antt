-- ===== src/Usb.antt =====
-- The USB side of src/main_app.cpp, src/main_app.h, src/usb_raw_control_event.cpp and the modems.
pub mod Descriptor
pub mod Tables
pub mod Device
pub mod Gadget
pub mod Request
