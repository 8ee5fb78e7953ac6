-- ===== src/Startup.antt =====
-- What runs before the service answers requests, and its command line.
pub mod Database
pub mod Mtls
pub mod Jwt
pub mod Console
