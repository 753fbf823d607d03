-- ===== src/Scheduler.antt =====
-- wao-scheduler: the plugins MinimizePower and PodSpread of the scheduler.
pub mod Normalize
pub mod PodSpread
pub mod Power
pub mod Cycle
