-- ===== src/Modem.antt =====
-- src/modem.cpp and the four modems.
pub mod Address
pub mod Number
pub mod At
pub mod Registry
pub mod Line
pub mod BulkIn
