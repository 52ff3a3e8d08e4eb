-- ===== src/Examples.antt =====
-- Each theorem with conditions, applied at a concrete state of the kernel where they hold.
pub mod States
pub mod Scheduling
pub mod Blocking
pub mod Objects
pub mod Numbers
pub mod Running
pub mod Queues
pub mod Whole
pub mod Targets
