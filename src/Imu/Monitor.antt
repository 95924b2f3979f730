-- ===== src/Imu/Monitor.antt =====
-- src/tasks/imu_monitor.rs: the task that samples the sensors. Each await is a phase, and what it
-- gives a wake-up; an instant is its microseconds, of a clock that does not run backwards. A channel
-- is the list of what the task offers to it, the latest first: whether it has room makes no difference
-- to the task. What the sensors' driver gives is arbitrary.
pub mod Pace
pub mod Rates
pub mod Session
mod Tests
use project_emerge_dropbot_f.Prelude.{
  ℕ, ◌-◌, Bool, true, false, if◌then◌else◌, leb, List, [], ◌∷◌, Result, ok, err,
}
use project_emerge_dropbot_f.Prelude.Int.{pos}
use project_emerge_dropbot_f.Imu.Sample.{ImuSample}
use project_emerge_dropbot_f.Imu.Maths.{Maths}
use project_emerge_dropbot_f.Imu.Filter.{ImuFilter, FilteredImu, new, update}

abbrev pub stream_interval : ℕ
stream_interval = 100000

abbrev pub telemetry_interval : ℕ
telemetry_interval = 500000

pub record ImuTelemetry (R Q : Type 0) : Type 0 where
  pub timestamp_us : ℕ
  pub raw : ImuSample R
  pub filtered : FilteredImu R Q

-- The variables of the inner loop.
pub record Sampling (R Q : Type 0) : Type 0 where
  pub filter : ImuFilter R Q
  pub sampled_at : ℕ
  pub streamed_at : ℕ
  pub reported_at : ℕ

pub data Phase (R Q : Type 0) : Type 0 where
  -- The start of the sensors, the pause after a failure, and a session.
  starting backing_off : Phase R Q
  sampling : Sampling R Q → Phase R Q

pub data Wake (E R : Type 0) : Type 0 where
  -- The start's result, with the three readings of the clock that follow it.
  initialised : Result E (Unit {0}) → ℕ → ℕ → ℕ → Wake E R
  retried : Wake E R
  -- A read's result, after the timer of a sample, with the clock after it.
  read : Result E (ImuSample R) → ℕ → Wake E R

pub record ImuMonitor (R Q : Type 0) : Type 0 where
  pub phase : Phase R Q
  pub imu_stream : List (ImuTelemetry R Q)
  pub imu_telemetry : List (ImuTelemetry R Q)

module _ {R Q : Type 0} (l : Maths R Q) where
  unfoldable pub seconds : ℕ → ℕ → R
  seconds sampled_at now =
      l.f32.div (l.f32.of_int (pos (now - sampled_at))) (l.f32.literal 1000000 1)

  abbrev pub start : ImuMonitor R Q
  start = record { phase = starting; imu_stream = []; imu_telemetry = [] }

  unfoldable pub telemetry : ℕ → ImuSample R → FilteredImu R Q → ImuTelemetry R Q
  telemetry taken_at sample filtered = record {
    timestamp_us = taken_at;
    raw = sample;
    filtered = filtered;
  }

  -- The two deadlines after a sample.
  unfoldable pub stream :
      ImuTelemetry R Q → ℕ → Sampling R Q → ImuMonitor R Q → Sampling R Q × ImuMonitor R Q
  stream out now s m =
      if leb stream_interval (now - s.streamed_at)
      then (record s { streamed_at = now }, record m { imu_stream = out ∷ m.imu_stream })
      else (s, m)

  unfoldable pub report :
      ImuTelemetry R Q → ℕ → Sampling R Q → ImuMonitor R Q → Sampling R Q × ImuMonitor R Q
  report out now s m =
      if leb telemetry_interval (now - s.reported_at)
      then (record s { reported_at = now }, record m { imu_telemetry = out ∷ m.imu_telemetry })
      else (s, m)

  unfoldable pub on_sample : ImuSample R → ℕ → Sampling R Q → ImuMonitor R Q → ImuMonitor R Q
  unfolding seconds telemetry stream report
  on_sample sample now s m =
      let (filter, filtered) = update l sample (seconds s.sampled_at now) s.filter in
      let out = telemetry now sample filtered in
      let (s1, m1) = stream out now (record s { filter = filter; sampled_at = now }) m in
      let (s2, m2) = report out now s1 m1 in record m2 { phase = sampling s2 }

  -- A wake-up that is not of the phase does not occur, and changes nothing.
  unfoldable pub wake : {E : Type 0} → Phase R Q → Wake E R → ImuMonitor R Q → ImuMonitor R Q
  unfolding on_sample
  wake starting (initialised (ok _) sampled_at streamed_at reported_at) m = record m {
    phase = sampling (record {
      filter = new l;
      sampled_at = sampled_at;
      streamed_at = streamed_at;
      reported_at = reported_at;
    });
  }
  wake starting (initialised (err e) sampled_at streamed_at reported_at) m = record m {
    phase = backing_off;
  }
  wake backing_off retried m = record m { phase = starting }
  wake (sampling s) (read (ok sample) now) m = on_sample sample now s m
  wake (sampling s) (read (err e) now) m = record m { phase = backing_off }
  wake _ _ m = m

  unfoldable pub run : {E : Type 0} → List (Wake E R) → ImuMonitor R Q → ImuMonitor R Q
  unfolding wake
  run [] m = m
  run (w ∷ ws) m = run ws (wake m.phase w m)
