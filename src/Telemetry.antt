-- ===== src/Telemetry.antt =====
-- src/data/telemetry.rs and src/tasks/telemetry_aggregator.rs: the readings of the other tasks, put
-- together once a second. The channels are interfaces; what the task offers is the list of it, the
-- latest first.
pub mod Order
mod Tests
use project_emerge_dropbot_f.Prelude.{ℕ, Bool, true, false, Option, none, some, List, [], ◌∷◌}
use project_emerge_dropbot_f.Prelude.Int.{ℤ, pos}
use project_emerge_dropbot_f.Prelude.Text.{Text}
use project_emerge_dropbot_f.Float
use project_emerge_dropbot_f.Sync.{Channel}
use project_emerge_dropbot_f.Battery.Monitor.{BatteryTelemetry}
use project_emerge_dropbot_f.Motor.Task.{MotorTelemetry, stopped}
use project_emerge_dropbot_f.Imu.Maths.{Maths}
use project_emerge_dropbot_f.Imu.Attitude.{zero_vector}
use project_emerge_dropbot_f.Imu.Monitor.{ImuTelemetry}

pub record NetworkTelemetry : Type 0 where
  pub rssi : ℤ
  pub ip_address : Option Text

pub record Telemetry (R Q : Type 0) : Type 0 where
  pub motor_telemetry : MotorTelemetry R
  pub battery_telemetry : BatteryTelemetry R
  pub imu_telemetry : ImuTelemetry R Q
  pub network_telemetry : NetworkTelemetry

-- What a source holds and the last reading that was taken from it.
pub record Source (C A : Type 0) : Type 0 where
  pub queue : C
  pub latest : A

unfoldable pub taken : {C A : Type 0} → Option (A × C) → Source C A → Source C A
taken none s = s
taken (some (a, q)) s = record { queue = q; latest = a }

-- `try_receive`, and the assignment where it gives something.
unfoldable pub look : {C A : Type 0} → Channel C A → Source C A → Source C A
unfolding taken
look channel s = taken (channel.try_receive s.queue) s

-- A producer's `try_send`, which a full queue refuses.
unfoldable pub offered : {C A : Type 0} → Option C → Source C A → Source C A
offered none s = s
offered (some q) s = record s { queue = q }

unfoldable pub arrive : {C A : Type 0} → Channel C A → A → Source C A → Source C A
unfolding offered
arrive channel a s = offered (channel.try_send s.queue a) s

module _ {R Q : Type 0} (l : Maths R Q) where
  abbrev pub no_battery : BatteryTelemetry R
  no_battery = record {
    voltage = Float.zero l.f32;
    current = Float.zero l.f32;
    temperature = Float.zero l.f32;
    is_charging = false;
    state_of_charge = 0;
  }

  abbrev pub no_network : NetworkTelemetry
  no_network = record { rssi = pos 0; ip_address = none }

  -- The derived defaults.
  abbrev pub no_imu : ImuTelemetry R Q
  no_imu = record {
    timestamp_us = 0;
    raw = record {
      accelerometer = zero_vector l;
      gyroscope = zero_vector l;
      magnetometer = zero_vector l;
      temperature = none;
    };
    filtered = record {
      accelerometer = zero_vector l;
      gyroscope = zero_vector l;
      magnetometer = zero_vector l;
      linear_acceleration = zero_vector l;
      quaternion = l.identity;
      roll = Float.zero l.f32;
      pitch = Float.zero l.f32;
      heading = none;
      is_stationary = false;
    };
  }

-- The task with the queues of the four sources.
pub record Aggregator (R Q CM CB CI CN : Type 0) : Type 0 where
  pub motor : Source CM (MotorTelemetry R)
  pub battery : Source CB (BatteryTelemetry R)
  pub imu : Source CI (ImuTelemetry R Q)
  pub network : Source CN NetworkTelemetry
  pub aggregated_telemetry : List (Telemetry R Q)

-- What happens: a producer offers a reading, or the task's second has passed.
pub data Event (R Q : Type 0) : Type 0 where
  motor_reading : MotorTelemetry R → Event R Q
  battery_reading : BatteryTelemetry R → Event R Q
  imu_reading : ImuTelemetry R Q → Event R Q
  network_reading : NetworkTelemetry → Event R Q
  second_passed : Event R Q

module _ {R Q CM CB CI CN : Type 0} (motors : Channel CM (MotorTelemetry R))
    (batteries : Channel CB (BatteryTelemetry R)) (imus : Channel CI (ImuTelemetry R Q))
    (networks : Channel CN NetworkTelemetry) where
  -- The body of the loop.
  unfoldable pub aggregate : Aggregator R Q CM CB CI CN → Aggregator R Q CM CB CI CN
  unfolding look
  aggregate s =
      let motor = look motors s.motor in
      let battery = look batteries s.battery in
      let imu = look imus s.imu in
      let network = look networks s.network in
      record {
        motor = motor;
        battery = battery;
        imu = imu;
        network = network;
        aggregated_telemetry =
            record {
              motor_telemetry = motor.latest;
              battery_telemetry = battery.latest;
              imu_telemetry = imu.latest;
              network_telemetry = network.latest;
            }
            ∷ s.aggregated_telemetry;
      }

  unfoldable pub step : Event R Q → Aggregator R Q CM CB CI CN → Aggregator R Q CM CB CI CN
  unfolding aggregate arrive
  step (motor_reading a) s = record s { motor = arrive motors a s.motor }
  step (battery_reading a) s = record s { battery = arrive batteries a s.battery }
  step (imu_reading a) s = record s { imu = arrive imus a s.imu }
  step (network_reading a) s = record s { network = arrive networks a s.network }
  step second_passed s = aggregate s

  unfoldable pub run : List (Event R Q) → Aggregator R Q CM CB CI CN → Aggregator R Q CM CB CI CN
  unfolding step
  run [] s = s
  run (e ∷ es) s = run es (step e s)
