-- ===== src/Imu/Monitor/Session.antt =====
-- A session filters what it samples, and nothing else.
use mathlib.Core.Path.{subst}
use project_emerge_dropbot_f.Prelude.{
  ℕ, ◌≡◌, refl, sym, ap, ◌∙◌, if_cases, leb, ◌-◌, List, [], ◌∷◌, ok,
}
use project_emerge_dropbot_f.Imu.Sample.{ImuSample}
use project_emerge_dropbot_f.Imu.Maths.{Maths}
use project_emerge_dropbot_f.Imu.Filter
use project_emerge_dropbot_f.Imu.Filter.{ImuFilter, new, update}
use project_emerge_dropbot_f.Imu.Monitor.{
  ImuTelemetry, Sampling, Phase, starting, sampling, Wake, initialised, read, ImuMonitor,
  stream_interval, telemetry_interval, seconds, telemetry, stream, report, on_sample, wake, run,
}

-- The reads of a session, all of which succeed.
abbrev pub reads : {E R : Type 0} → List (ImuSample R × ℕ) → List (Wake E R)
reads [] = []
reads ((sample, now) ∷ samples) = read (ok sample) now ∷ reads samples

module _ {R Q : Type 0} (l : Maths R Q) where
  -- The samples with the seconds since the one before.
  abbrev pub timed : ℕ → List (ImuSample R × ℕ) → List (ImuSample R × R)
  timed sampled_at [] = []
  timed sampled_at ((sample, now) ∷ samples) =
      (sample, seconds l sampled_at now) ∷ timed now samples

  -- The session of a phase has this filter and this last sample.
  abbrev pub IsSession : ImuFilter R Q → ℕ → Phase R Q → Type 0
  IsSession filter sampled_at phase =
      (s : Sampling R Q) × (phase ≡ sampling s) × (s.filter ≡ filter) × (s.sampled_at ≡ sampled_at)

  stream_same :
      (out : ImuTelemetry R Q) (now : ℕ) (s : Sampling R Q) (m : ImuMonitor R Q)
      → let r = stream l out now s m in (r.0.filter ≡ s.filter) × (r.0.sampled_at ≡ s.sampled_at)
  unfolding stream
  stream_same out now s m =
      if_cases {A = Sampling R Q × ImuMonitor R Q}
        (λ r. (r.0.filter ≡ s.filter) × (r.0.sampled_at ≡ s.sampled_at))
        (leb stream_interval (now - s.streamed_at)) _ _ (λ _. (refl, refl)) (λ _. (refl, refl))

  report_same :
      (out : ImuTelemetry R Q) (now : ℕ) (s : Sampling R Q) (m : ImuMonitor R Q)
      → let r = report l out now s m in (r.0.filter ≡ s.filter) × (r.0.sampled_at ≡ s.sampled_at)
  unfolding report
  report_same out now s m =
      if_cases {A = Sampling R Q × ImuMonitor R Q}
        (λ r. (r.0.filter ≡ s.filter) × (r.0.sampled_at ≡ s.sampled_at))
        (leb telemetry_interval (now - s.reported_at)) _ _ (λ _. (refl, refl)) (λ _. (refl, refl))

  on_sample-IsSession :
      (sample : ImuSample R) (now : ℕ) (s : Sampling R Q) (m : ImuMonitor R Q)
      → IsSession
          (update l sample (seconds l s.sampled_at now) s.filter).0
          now
          (on_sample l sample now s m).phase
  unfolding on_sample
  on_sample-IsSession sample now s m =
      let given = update l sample (seconds l s.sampled_at now) s.filter in
      let out = telemetry l now sample given.1 in
      let sampled : Sampling R Q = record s { filter = given.0; sampled_at = now } in
      let streamed = stream l out now sampled m in
      let first = stream_same out now sampled m in
      let last = report_same out now streamed.0 streamed.1 in
      (_, refl, last.0 ∙ first.0, last.1 ∙ first.1)

  module _ (E : Type 0) where
    abbrev pub read_all : List (ImuSample R × ℕ) → List (Wake E R)
    read_all samples = reads samples

    -- The sensors came up.
    abbrev pub first_wake : ℕ → ℕ → ℕ → Wake E R
    first_wake sampled_at streamed_at reported_at =
        initialised (ok tt) sampled_at streamed_at reported_at

    run-IsSession :
        (samples : List (ImuSample R × ℕ)) (s : Sampling R Q) (m : ImuMonitor R Q)
        → m.phase ≡ sampling s
        → (last : ℕ) × IsSession
            (Filter.run l (timed s.sampled_at samples) s.filter).0
            last
            (run l (read_all samples) m).phase
    unfolding run wake Filter.run
    run-IsSession [] s m e = (s.sampled_at, (s, e, refl, refl))
    run-IsSession ((sample, now) ∷ samples) s m e =
        let w : Wake E R = read (ok sample) now in
        let (s', phase, filter, at) = on_sample-IsSession sample now s m in
        let (last, rest) = run-IsSession samples s' (on_sample l sample now s m) phase in
        (
          last,
          subst
              (λ m'.
                IsSession
                  (Filter.run l (timed now samples)
                    (update l sample (seconds l s.sampled_at now) s.filter).0).0
                  last (run l (read_all samples) m').phase)
              (ap (λ p. wake l p w m) (sym e))
              (subst
                (λ t.
                  IsSession
                    (Filter.run l (timed t samples)
                      (update l sample (seconds l s.sampled_at now) s.filter).0).0
                    last (run l (read_all samples) (on_sample l sample now s m)).phase)
                at
                (subst
                  (λ f.
                    IsSession (Filter.run l (timed s'.sampled_at samples) f).0 last
                      (run l (read_all samples) (on_sample l sample now s m)).phase)
                  filter rest)),
        )

    -- A session that has started and whose reads succeed goes on, whatever came before it, and its filter
    -- is a fresh one that has been given exactly the session's samples, in their order, each with the
    -- seconds since the one before.
    pub run-fresh :
        (samples : List (ImuSample R × ℕ)) (m : ImuMonitor R Q)
        (sampled_at streamed_at reported_at : ℕ)
        → m.phase ≡ starting
        → (last : ℕ) × IsSession
            (Filter.run l (timed sampled_at samples) (new l)).0
            last
            (run l (first_wake sampled_at streamed_at reported_at ∷ read_all samples) m).phase
    unfolding run wake
    run-fresh samples m sampled_at streamed_at reported_at e =
        let session : Sampling R Q = record {
          filter = new l;
          sampled_at = sampled_at;
          streamed_at = streamed_at;
          reported_at = reported_at;
        } in
        let began = record m { phase = sampling session } in
        let (last, rest) = run-IsSession samples session began refl in
        (
          last,
          subst
              (λ m'.
                IsSession (Filter.run l (timed sampled_at samples) (new l)).0 last
                  (run l (read_all samples) m').phase)
              (ap (λ p. wake l p (first_wake sampled_at streamed_at reported_at) m) (sym e)) rest,
        )
