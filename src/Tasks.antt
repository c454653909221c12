-- ===== src/Tasks.antt =====
-- lib/tasks: the durable tasks, their retries and schedules.
pub mod Cron
pub mod Retry
pub mod Runner
mod Tests
pub mod Errors
