-- ===== src/Task.antt =====
-- src/sertos_task.c.
pub mod Create
pub mod Lifecycle
pub mod Inspect
pub mod Stack
pub mod Priority
pub mod Suspension
