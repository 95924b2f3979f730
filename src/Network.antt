-- ===== src/Network.antt =====
-- The device's identity, its MQTT topics and the tasks behind them.
pub mod Heapless
pub mod Device
pub mod Topics
pub mod Configuration
pub mod Dispatch
pub mod Session
pub mod Monitor
pub mod Publisher
