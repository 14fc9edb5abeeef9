-- ===== src/Entry.antt =====
-- engine/main.cpp: the Engine as a Windows service, and its command line.
pub mod Service
pub mod Setup
pub mod Arguments
