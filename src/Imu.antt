-- ===== src/Imu.antt =====
-- The nine-axis IMU: the two sensors on the bus, the filter over their samples, and the task.
pub mod Bus
pub mod Inertial
pub mod Magnetic
pub mod Sample
pub mod NineAxis
pub mod Maths
pub mod Attitude
pub mod HardIron
pub mod Filter
pub mod Monitor
