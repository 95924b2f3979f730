-- ===== src/Imu/Sample.antt =====
-- src/data/imu.rs: one pass of the sensors.
use project_emerge_dropbot_f.Prelude.{Option}
use project_emerge_dropbot_f.Float.Vector.{Vec3}

pub record ImuSample (R : Type 0) : Type 0 where
  pub accelerometer : Vec3 R
  pub gyroscope : Vec3 R
  pub magnetometer : Vec3 R
  pub temperature : Option R
