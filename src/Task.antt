-- ===== src/Task.antt =====
-- internal/task: the schedules of tasks.
pub mod Cron
pub mod Engine
mod Examples
