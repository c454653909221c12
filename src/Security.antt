-- ===== src/Security.antt =====
-- lib/security: what keeps outbound requests from internal hosts.
pub mod Addresses
mod Tests
