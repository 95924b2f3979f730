-- ===== src/Imu/NineAxis.antt =====
-- src/drivers/imu/mod.rs: the two sensors as one.
pub mod Start
mod Tests
use project_emerge_dropbot_f.Prelude.{ℕ, List, Result, ok, err}
use project_emerge_dropbot_f.Prelude.Text.{Text}
use project_emerge_dropbot_f.Float.{F32}
use project_emerge_dropbot_f.Float.Vector.{Vec3}
use project_emerge_dropbot_f.Imu.Bus.{BusCall, Bus, Action, follow, ◌>>=◌, ◌>>◌, pure, lift}
use project_emerge_dropbot_f.Imu.Sample.{ImuSample}
use project_emerge_dropbot_f.Imu.Inertial
use project_emerge_dropbot_f.Imu.Inertial.{Bmi270Error}
use project_emerge_dropbot_f.Imu.Magnetic
use project_emerge_dropbot_f.Imu.Magnetic.{Mmc5983maError}

pub data ImuError (E : Type 0) : Type 0 where
  inertial : Bmi270Error E → ImuError E
  magnetic : Mmc5983maError E → ImuError E

abbrev pub inertial_to_board : {R : Type 0} → Vec3 R → Vec3 R
inertial_to_board sensor = sensor

abbrev pub magnetic_to_board : {R : Type 0} → Vec3 R → Vec3 R
magnetic_to_board sensor = sensor

module _ {E : Type 0} (bus : Bus E) where
  -- The address of the inertial part is kept by its driver.
  unfoldable pub init : Text → Action (ImuError E) ℕ
  init config_file = do
    address ← lift inertial (Inertial.init bus config_file)
    lift magnetic (Magnetic.init bus)
    pure address

  unfoldable pub read : {R : Type 0} → F32 R → ℕ → Action (ImuError E) (ImuSample R)
  read f address = do
    sample ← lift inertial (Inertial.read bus address f)
    magnetometer ← lift magnetic (Magnetic.read bus f)
    pure record {
      accelerometer = inertial_to_board sample.accelerometer;
      gyroscope = inertial_to_board sample.gyroscope;
      magnetometer = magnetic_to_board magnetometer;
      temperature = sample.temperature;
    }
