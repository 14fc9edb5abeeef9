-- ===== src/Engine.antt =====
-- engine/engine.cpp: the Engine.
pub mod Subsystems
pub mod Hosts
pub mod Activation
pub mod Answers
pub mod Parts
pub mod Nginx
pub mod Reports
pub mod Settings
pub mod Messages
pub mod Lifecycle
