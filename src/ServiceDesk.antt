-- ===== src/ServiceDesk.antt =====
-- lib/service-desk: the tickets of the service desk.
pub mod Sla
mod Tests
