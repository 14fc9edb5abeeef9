-- ===== src/Ipc.antt =====
-- The named pipe's two ends: engine/ipc/ and appytizer-ui/ipc/.
pub mod Server
pub mod Serving
pub mod Client
pub mod Request
