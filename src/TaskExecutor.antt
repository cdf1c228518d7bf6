-- ===== src/TaskExecutor.antt =====
-- scripts/dev/night-runner-executor.mjs: the execution of one authorized task.
pub mod Launch
pub mod Process
