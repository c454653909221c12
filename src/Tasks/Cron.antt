-- ===== src/Tasks/Cron.antt =====
-- lib/tasks/cron.ts: cron expressions and the runs that they name.
pub mod Field
pub mod Expression
pub mod Next
