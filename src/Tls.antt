-- ===== src/Tls.antt =====
-- engine/tls/certificate_manager.cpp: the certificate authority, the sites' certificates and the
-- entry in the trust store.
pub mod Hostname
pub mod Crypto
pub mod Disk
pub mod Trust
pub mod Authority
pub mod Leaf
pub mod Cleanup
pub mod Status
