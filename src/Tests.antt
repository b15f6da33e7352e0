-- ===== src/Tests.antt =====
-- Concrete states, and the theorems at them.
pub mod Sample
pub mod Ring
pub mod Sockets
pub mod System
pub mod Startup
pub mod Modem
pub mod Control
