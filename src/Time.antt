-- ===== src/Time.antt =====
-- src/common/time: the calendar of the game world and the pool of timers.
pub mod EqTime
pub mod TimerPool
