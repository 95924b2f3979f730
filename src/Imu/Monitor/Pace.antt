-- ===== src/Imu/Monitor/Pace.antt =====
-- What the deadlines of the task promise at an instant, and that a sample keeps it.

use project_emerge_dropbot_f.Prelude.{
  ℕ, ◌+◌, ◌-◌, ◌≤◌, ◌≡◌, refl, if_cases, leb, leb→le, List, [], ◌∷◌, arith,
}
use project_emerge_dropbot_f.Imu.Sample.{ImuSample}
use project_emerge_dropbot_f.Imu.Maths.{Maths}
use project_emerge_dropbot_f.Imu.Filter.{update}
use project_emerge_dropbot_f.Imu.Monitor.{
  ImuTelemetry, Sampling, Phase, starting, backing_off, sampling, Wake, initialised, retried, read,
  ImuMonitor, stream_interval, telemetry_interval, seconds, telemetry, stream, report, on_sample,
}

-- The clock does not run backwards over the wake-ups, from an instant on.
abbrev pub IsTimed : {E R : Type 0} → ℕ → List (Wake E R) → Type 0
IsTimed t [] = Unit {0}
IsTimed t (initialised r a b c ∷ ws) = (t ≤ a) × (a ≤ b) × (b ≤ c) × IsTimed c ws
IsTimed t (retried ∷ ws) = IsTimed t ws
IsTimed t (read r now ∷ ws) = (t ≤ now) × IsTimed now ws

module _ {R Q : Type 0} where
  -- Offers of which each is later than the one before by an interval at least; the last is no later
  -- than an instant.
  abbrev pub Before : ℕ → List (ImuTelemetry R Q) → Type 0
  Before t [] = Unit {0}
  Before t (out ∷ outs) = out.timestamp_us ≤ t

  abbrev pub IsSpaced : ℕ → List (ImuTelemetry R Q) → Type 0
  IsSpaced interval [] = Unit {0}
  IsSpaced interval (out ∷ []) = Unit {0}
  IsSpaced interval (out ∷ last ∷ outs) =
      (last.timestamp_us + interval ≤ out.timestamp_us) × IsSpaced interval (last ∷ outs)

  pub Before-later :
      (t u : ℕ) (outs : List (ImuTelemetry R Q)) → t ≤ u → Before t outs → Before u outs
  Before-later t u [] h b = tt
  Before-later t u (out ∷ outs) h b = omega arith

  IsSpaced-cons :
      (interval t : ℕ) (out : ImuTelemetry R Q) (outs : List (ImuTelemetry R Q))
      → Before t outs
      → IsSpaced interval outs
      → t + interval ≤ out.timestamp_us
      → IsSpaced interval (out ∷ outs)
  IsSpaced-cons interval t out [] b s h = tt
  IsSpaced-cons interval t out (last ∷ outs) b s h = (omega arith, s)

  -- What the deadlines of a phase promise, at an instant.
  abbrev pub IsDue : ℕ → Phase R Q → ImuMonitor R Q → Type 0
  IsDue t starting m = Before t m.imu_stream × Before t m.imu_telemetry
  IsDue t backing_off m = Before t m.imu_stream × Before t m.imu_telemetry
  IsDue t (sampling s) m =
      Before s.streamed_at m.imu_stream
      × Before s.reported_at m.imu_telemetry
      × (s.streamed_at ≤ t)
      × (s.reported_at ≤ t)

  pub record IsPaced (t : ℕ) (phase : Phase R Q) (m : ImuMonitor R Q) : Type 0 where
    pub stream_spaced : IsSpaced stream_interval m.imu_stream
    pub telemetry_spaced : IsSpaced telemetry_interval m.imu_telemetry
    pub due : IsDue t phase m

module _ {R Q : Type 0} (l : Maths R Q) where
  stream-IsPaced :
      (t now : ℕ) (out : ImuTelemetry R Q) (s : Sampling R Q) (m : ImuMonitor R Q)
      → t ≤ now
      → out.timestamp_us ≡ now
      → IsPaced t (sampling s) m
      → let (s1, m1) = stream l out now s m in IsPaced now (sampling s1) m1
  unfolding stream
  stream-IsPaced t now out s m later at p =
      if_cases {A = Sampling R Q × ImuMonitor R Q} (λ r. IsPaced now (sampling r.0) r.1)
        (leb stream_interval (now - s.streamed_at)) _ _
        (λ e. record {
          stream_spaced =
              IsSpaced-cons stream_interval s.streamed_at out m.imu_stream p.due.0 p.stream_spaced
                (omega (arith, leb→le stream_interval (now - s.streamed_at) e));
          telemetry_spaced = p.telemetry_spaced;
          due = (omega arith, p.due.1, omega arith, omega (arith, p.due.3));
        })
        (λ _. record {
          stream_spaced = p.stream_spaced;
          telemetry_spaced = p.telemetry_spaced;
          due = (p.due.0, p.due.1, omega (arith, p.due.2), omega (arith, p.due.3));
        })

  report-IsPaced :
      (now : ℕ) (out : ImuTelemetry R Q) (s : Sampling R Q) (m : ImuMonitor R Q)
      → out.timestamp_us ≡ now
      → IsPaced now (sampling s) m
      → let (s1, m1) = report l out now s m in IsPaced now (sampling s1) m1
  unfolding report
  report-IsPaced now out s m at p =
      if_cases {A = Sampling R Q × ImuMonitor R Q} (λ r. IsPaced now (sampling r.0) r.1)
        (leb telemetry_interval (now - s.reported_at)) _ _
        (λ e. record {
          stream_spaced = p.stream_spaced;
          telemetry_spaced =
              IsSpaced-cons telemetry_interval s.reported_at out m.imu_telemetry p.due.1
                p.telemetry_spaced
                (omega (arith, leb→le telemetry_interval (now - s.reported_at) e));
          due = (p.due.0, omega arith, p.due.2, omega arith);
        })
        (λ _. p)

  pub on_sample-IsPaced :
      (t now : ℕ) (sample : ImuSample R) (s : Sampling R Q) (m : ImuMonitor R Q)
      → t ≤ now
      → IsPaced t (sampling s) m
      → let m' = on_sample l sample now s m in IsPaced now m'.phase m'
  unfolding on_sample telemetry
  on_sample-IsPaced t now sample s m later p =
      let given = update l sample (seconds l s.sampled_at now) s.filter in
      let out = telemetry l now sample given.1 in
      let sampled : Sampling R Q = record s { filter = given.0; sampled_at = now } in
      let streamed = stream l out now sampled m in
      let reported = report l out now streamed.0 streamed.1 in
      let paced = report-IsPaced now out streamed.0 streamed.1 refl (
        stream-IsPaced t now out sampled m later refl (record {
          stream_spaced = p.stream_spaced;
          telemetry_spaced = p.telemetry_spaced;
          due = p.due;
        })) in
      record {
        stream_spaced = paced.stream_spaced;
        telemetry_spaced = paced.telemetry_spaced;
        due = paced.due;
      }

  pub later-IsPaced :
      (t u : ℕ) (phase : Phase R Q) (m : ImuMonitor R Q)
      → t ≤ u
      → IsPaced t phase m
      → IsPaced u phase m
  later-IsPaced t u starting m h p = record {
    stream_spaced = p.stream_spaced;
    telemetry_spaced = p.telemetry_spaced;
    due = (Before-later t u m.imu_stream h p.due.0, Before-later t u m.imu_telemetry h p.due.1);
  }
  later-IsPaced t u backing_off m h p = record {
    stream_spaced = p.stream_spaced;
    telemetry_spaced = p.telemetry_spaced;
    due = (Before-later t u m.imu_stream h p.due.0, Before-later t u m.imu_telemetry h p.due.1);
  }
  later-IsPaced t u (sampling s) m h p = record {
    stream_spaced = p.stream_spaced;
    telemetry_spaced = p.telemetry_spaced;
    due = (p.due.0, p.due.1, omega (arith, p.due.2), omega (arith, p.due.3));
  }
