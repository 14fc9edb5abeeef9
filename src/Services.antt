-- ===== src/Services.antt =====
-- engine/services/ and common/service_provider.hpp: the services that the engine manages.
pub mod Version
pub mod Provider
pub mod Detect
pub mod Paths
pub mod Search
pub mod Fixed
pub mod Builtin
