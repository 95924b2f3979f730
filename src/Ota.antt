-- ===== src/Ota.antt =====
-- The firmware update: its progress and the task that runs it.
pub mod Status
pub mod Manager
pub mod Task
mod Tests
