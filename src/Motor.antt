-- ===== src/Motor.antt =====
-- The drive: the DRV8833 driver, and the task that owns it.
pub mod Driver
pub mod Task
mod Tests
