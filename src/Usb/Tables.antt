-- ===== src/Usb/Tables.antt =====
-- The descriptor tables of the four modems.
pub mod Lucent
pub mod Omron
pub mod OnlineStation
pub mod SmartScm
