-- ===== src/Common.antt =====
-- common/: what the Engine and the tray application share.
pub mod Json
pub mod Config
pub mod Protocol
pub mod Starting
pub mod Granting
