-- ===== src/Usb/Request.antt =====
-- Control requests on endpoint 0: src/usb_raw_control_event.cpp, `process_control_packet` and
-- `event_usb_control_loop` of src/main_app.cpp, and `handle_control_request` of the modems.
pub mod Model
pub mod Log
pub mod Handlers
pub mod Loop
pub mod Copies
pub mod Threads
pub mod Laws
pub mod Safety
pub mod Events
