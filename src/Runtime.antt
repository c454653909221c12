-- ===== src/Runtime.antt =====
-- lib/runtime, lib/security/rate-limit.ts and lib/concurrency.ts: what bounds the work of a process.
pub mod Budget
pub mod RateLimit
pub mod Concurrency
mod Tests
