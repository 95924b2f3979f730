-- ===== src/Imu/Monitor/Tests.antt =====
-- A session of three reads, the last of which fails, and another one.
use project_emerge_dropbot_f.Prelude.{ℕ, ◌≡◌, refl, arith, none, List, [], ◌∷◌, ok, err, length}
use project_emerge_dropbot_f.Prelude.Int.{ℤ, pos}
use project_emerge_dropbot_f.Float.Vector.{Vec3}
use project_emerge_dropbot_f.Imu.Sample.{ImuSample}
use project_emerge_dropbot_f.Imu.Maths.Planar.{planar}
use project_emerge_dropbot_f.Imu.Filter
use project_emerge_dropbot_f.Imu.Filter.{new}
use project_emerge_dropbot_f.Imu.Monitor.{
  Wake, initialised, retried, read, stream_interval, telemetry_interval, start, run,
}
use project_emerge_dropbot_f.Imu.Monitor.Pace.{IsTimed, IsSpaced}
use project_emerge_dropbot_f.Imu.Monitor.Rates.{run-start-IsSpaced}
use project_emerge_dropbot_f.Imu.Monitor.Session.{timed, IsSession, read_all, first_wake, run-fresh}

abbrev vector : ℤ → Vec3 ℤ
vector z = record { x = pos 0; y = pos 0; z = z }

abbrev sample : ImuSample ℤ
sample = record {
  accelerometer = vector (pos 9806);
  gyroscope = vector (pos 0);
  magnetometer = vector (pos 40000);
  temperature = none;
}

abbrev wakes : List (Wake ℕ ℤ)
wakes =
    initialised (ok tt) 100 101 102
    ∷ read (ok sample) 10110
    ∷ read (ok sample) 100120
    ∷ read (ok sample) 120000
    ∷ read (err 7) 130000
    ∷ retried
    ∷ initialised (err 8) 5140000 5140000 5140000
    ∷ retried
    ∷ initialised (ok tt) 10200000 10200001 10200002
    ∷ read (ok sample) 10701000
    ∷ []

streamed : length (run planar wakes (start planar)).imu_stream ≡ 2
unfolding run
streamed = refl

reported : length (run planar wakes (start planar)).imu_telemetry ≡ 1
unfolding run
reported = refl

timely : IsTimed 0 wakes
timely = ground arith

run-start-IsSpaced_example :
    IsSpaced stream_interval (run planar wakes (start planar)).imu_stream
    × IsSpaced telemetry_interval (run planar wakes (start planar)).imu_telemetry
run-start-IsSpaced_example = run-start-IsSpaced planar wakes timely

run-fresh_example :
    (last : ℕ) × IsSession planar
      (Filter.run planar (timed planar 100 ((sample, 10110) ∷ [])) (new planar)).0
      last
      (run planar
        (first_wake planar ℕ 100 101 102 ∷ read_all planar ℕ ((sample, 10110) ∷ []))
        (start planar)).phase
run-fresh_example = run-fresh planar ℕ ((sample, 10110) ∷ []) (start planar) 100 101 102 refl
