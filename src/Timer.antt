-- ===== src/Timer.antt =====
-- src/sertos_timer.c.
pub mod Control
pub mod Walk
pub mod Active
pub mod Visit
pub mod Ticking
