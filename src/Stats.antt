-- ===== src/Stats.antt =====
-- src/sertos_stats.c.
pub mod Accounting
pub mod Snapshot
pub mod Percent
