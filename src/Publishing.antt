-- ===== src/Publishing.antt =====
-- lib/publishing: publish states, provider outcomes and the publishing engine.
pub mod RepeatCron
pub mod State
pub mod Contract
pub mod Modes
pub mod Compose
pub mod Engine
mod Tests
