-- ===== src/Telemetry/Tests.antt =====
-- Two readings of the IMU a second, into a queue of two.
use project_emerge_dropbot_f.Prelude.{ℕ, ◌≡◌, refl, List, [], ◌∷◌}
use project_emerge_dropbot_f.Prelude.Int.{ℤ, pos}
use project_emerge_dropbot_f.Sync.{Channel, list_channel, list_send}
use project_emerge_dropbot_f.Battery.Monitor.{BatteryTelemetry}
use project_emerge_dropbot_f.Motor.Task.{MotorTelemetry, stopped, motoring}
use project_emerge_dropbot_f.Imu.Maths.Planar.{planar}
use project_emerge_dropbot_f.Imu.Monitor.{ImuTelemetry}
use project_emerge_dropbot_f.Telemetry.{
  NetworkTelemetry, Aggregator, Event, imu_reading, motor_reading, second_passed, no_battery,
  no_network, no_imu, aggregate, run,
}
use project_emerge_dropbot_f.Telemetry.Order.{PassesOn, aggregate-run}

abbrev motors : Channel (List (MotorTelemetry ℤ)) (MotorTelemetry ℤ)
motors = list_channel 2

abbrev batteries : Channel (List (BatteryTelemetry ℤ)) (BatteryTelemetry ℤ)
batteries = list_channel 2

abbrev imus : Channel (List (ImuTelemetry ℤ ℤ)) (ImuTelemetry ℤ ℤ)
imus = list_channel 2

abbrev networks : Channel (List NetworkTelemetry) NetworkTelemetry
networks = list_channel 2

abbrev reading_at : ℕ → ImuTelemetry ℤ ℤ
reading_at t = record (no_imu planar) { timestamp_us = t }

abbrev waiting :
    Aggregator ℤ ℤ
      (List (MotorTelemetry ℤ))
      (List (BatteryTelemetry ℤ))
      (List (ImuTelemetry ℤ ℤ))
      (List NetworkTelemetry)
waiting = record {
  motor = record { queue = []; latest = stopped };
  battery = record { queue = []; latest = no_battery planar };
  imu = record { queue = reading_at 500000 ∷ reading_at 1000000 ∷ []; latest = no_imu planar };
  network = record { queue = []; latest = no_network planar };
  aggregated_telemetry = [];
}

abbrev second : List (Event ℤ ℤ)
second =
    imu_reading (reading_at 1500000)
    ∷ motor_reading (motoring (pos 5) (pos 7))
    ∷ imu_reading (reading_at 2000000)
    ∷ []

-- What is aggregated after two seconds is 1.5 seconds old.
stale :
    (run motors batteries imus networks
      (second_passed
        ∷ imu_reading (reading_at 1500000)
        ∷ imu_reading (reading_at 2000000)
        ∷ second_passed
        ∷ [])
      waiting).imu.latest.timestamp_us
    ≡ 1000000
unfolding run list_send
stale = refl

aggregate-run_example :
    let now =
      aggregate motors batteries imus networks
        (run motors batteries imus networks second waiting) in
    PassesOn motors [] now.motor
    × PassesOn batteries [] now.battery
    × PassesOn imus (reading_at 500000 ∷ reading_at 1000000 ∷ []) now.imu
    × PassesOn networks [] now.network
    × (now.aggregated_telemetry
        ≡ record {
          motor_telemetry = now.motor.latest;
          battery_telemetry = now.battery.latest;
          imu_telemetry = now.imu.latest;
          network_telemetry = now.network.latest;
        }
          ∷ [])
aggregate-run_example =
    aggregate-run motors batteries imus networks second waiting (tt, (tt, (tt, tt)))
