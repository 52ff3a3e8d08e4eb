-- ===== src/Scheduler.antt =====
-- src/sertos_scheduler.c, by the parts of that file.
pub mod Ready
pub mod Registry
pub mod Switch
pub mod Wait
pub mod Delay
pub mod Tick
pub mod Init
pub mod Invariant
pub mod Objects
pub mod WakeAll
