-- ===== src/Imu/Monitor/Rates.antt =====
-- How often the task offers what it samples.
use mathlib.Core.Path.{subst}
use project_emerge_dropbot_f.Prelude.{ℕ, ◌≡◌, refl, sym, List, [], ◌∷◌, ok, err, arith}
use project_emerge_dropbot_f.Imu.Maths.{Maths}
use project_emerge_dropbot_f.Imu.Monitor.{
  Phase, starting, backing_off, sampling, Wake, initialised, retried, read, ImuMonitor,
  stream_interval, telemetry_interval, start, wake, run,
}
use project_emerge_dropbot_f.Imu.Monitor.Pace.{
  IsTimed, Before-later, IsSpaced, IsPaced, on_sample-IsPaced, later-IsPaced,
}

module _ {R Q : Type 0} (l : Maths R Q) where
  module _ {E : Type 0} where
    -- A wake-up, and the instant that it leaves.
    abbrev Paced : Phase R Q → Wake E R → List (Wake E R) → ImuMonitor R Q → Type 0
    Paced phase w ws m =
        (u : ℕ) × IsTimed u ws × IsPaced u (wake l phase w m).phase (wake l phase w m)

    wake-IsPaced :
        (t : ℕ) (phase : Phase R Q) (w : Wake E R) (ws : List (Wake E R)) (m : ImuMonitor R Q)
        → m.phase ≡ phase
        → IsTimed t (w ∷ ws)
        → IsPaced t phase m
        → Paced phase w ws m
    unfolding wake
    wake-IsPaced t starting (initialised (ok x) a b c) ws m e timed p = (
      c,
      timed.3,
      record {
        stream_spaced = p.stream_spaced;
        telemetry_spaced = p.telemetry_spaced;
        due = (
          Before-later t b m.imu_stream (omega (arith, timed.0, timed.1)) p.due.0,
          Before-later t c m.imu_telemetry (omega (arith, timed.0, timed.1, timed.2)) p.due.1,
          timed.2,
          omega arith,
        );
      },
    )
    wake-IsPaced t starting (initialised (err x) a b c) ws m e timed p = (
      c,
      timed.3,
      later-IsPaced l t c backing_off (record m { phase = backing_off })
          (omega (arith, timed.0, timed.1, timed.2))
          (record {
            stream_spaced = p.stream_spaced;
            telemetry_spaced = p.telemetry_spaced;
            due = p.due;
          }),
    )
    wake-IsPaced t starting retried ws m e timed p =
        (t, timed, subst (λ phase. IsPaced t phase m) (sym e) p)
    wake-IsPaced t starting (read r now) ws m e timed p = (
      now,
      timed.1,
      subst (λ phase. IsPaced now phase m) (sym e) (later-IsPaced l t now starting m timed.0 p),
    )
    wake-IsPaced t backing_off (initialised r a b c) ws m e timed p = (
      c,
      timed.3,
      subst (λ phase. IsPaced c phase m) (sym e)
          (later-IsPaced l t c backing_off m (omega (arith, timed.0, timed.1, timed.2)) p),
    )
    wake-IsPaced t backing_off retried ws m e timed p = (
      t,
      timed,
      record {
        stream_spaced = p.stream_spaced;
        telemetry_spaced = p.telemetry_spaced;
        due = p.due;
      },
    )
    wake-IsPaced t backing_off (read r now) ws m e timed p = (
      now,
      timed.1,
      subst (λ phase. IsPaced now phase m) (sym e) (later-IsPaced l t now backing_off m timed.0 p),
    )
    wake-IsPaced t (sampling s) (initialised r a b c) ws m e timed p = (
      c,
      timed.3,
      subst (λ phase. IsPaced c phase m) (sym e)
          (later-IsPaced l t c (sampling s) m (omega (arith, timed.0, timed.1, timed.2)) p),
    )
    wake-IsPaced t (sampling s) retried ws m e timed p =
        (t, timed, subst (λ phase. IsPaced t phase m) (sym e) p)
    wake-IsPaced t (sampling s) (read (ok sample) now) ws m e timed p =
        (now, timed.1, on_sample-IsPaced l t now sample s m timed.0 p)
    wake-IsPaced t (sampling s) (read (err x) now) ws m e timed p = (
      now,
      timed.1,
      record {
        stream_spaced = p.stream_spaced;
        telemetry_spaced = p.telemetry_spaced;
        due = (
          Before-later s.streamed_at now m.imu_stream (omega (arith, p.due.2, timed.0)) p.due.0,
          Before-later s.reported_at now m.imu_telemetry (omega (arith, p.due.3, timed.0)) p.due.1,
        );
      },
    )

    run-IsPaced :
        (t : ℕ) (ws : List (Wake E R)) (m : ImuMonitor R Q)
        → IsTimed t ws
        → IsPaced t m.phase m
        → (u : ℕ) × IsPaced u (run l ws m).phase (run l ws m)
    unfolding run
    run-IsPaced t [] m timed p = (t, p)
    run-IsPaced t (w ∷ ws) m timed p =
        let (u, rest, paced) = wake-IsPaced t m.phase w ws m refl timed p in
        run-IsPaced u ws (wake l m.phase w m) rest paced

    -- Whatever the sensors answer and however often they fail, over any wake-ups under a clock that
    -- does not run backwards: each sample that is offered to the stream is at least 100 ms after the one
    -- before, and each that is offered to the telemetry at least 500 ms, also across a new start.
    pub run-start-IsSpaced :
        (ws : List (Wake E R))
        → IsTimed 0 ws
        → IsSpaced stream_interval (run l ws (start l)).imu_stream
          × IsSpaced telemetry_interval (run l ws (start l)).imu_telemetry
    run-start-IsSpaced ws timed =
        let (u, paced) =
          run-IsPaced 0 ws (start l) timed
            (record { stream_spaced = tt; telemetry_spaced = tt; due = (tt, tt) }) in
        (paced.stream_spaced, paced.telemetry_spaced)
