-- ===== src/Sites.antt =====
-- engine/sites: the site registry, and the nginx configuration that it writes.
pub mod Labels
pub mod Scan
pub mod Database
pub mod Registry
pub mod Nginx
