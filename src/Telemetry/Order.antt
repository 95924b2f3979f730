-- ===== src/Telemetry/Order.antt =====
-- Readings are passed on in the order in which they came.
use mathlib.Core.List.{append-nil, append_assoc}
use project_emerge_dropbot_f.Prelude.{
  ◌≡◌, refl, sym, ap, ◌∙◌, ◌⊎◌, inl, inr, List, [], ◌∷◌, ◌++◌, arith,
}
use project_emerge_dropbot_f.Sync.{Channel, try_receive-cases, try_send-cases}
use project_emerge_dropbot_f.Battery.Monitor.{BatteryTelemetry}
use project_emerge_dropbot_f.Motor.Task.{MotorTelemetry}
use project_emerge_dropbot_f.Imu.Monitor.{ImuTelemetry}
use project_emerge_dropbot_f.Telemetry.{
  NetworkTelemetry, Source, taken, look, offered, arrive, Aggregator, Event, motor_reading,
  battery_reading, imu_reading, network_reading, second_passed, aggregate, step, run,
}

abbrev first_or : {A : Type 0} → A → List A → A
first_or b [] = b
first_or b (a ∷ rest) = a

module _ {C A : Type 0} (channel : Channel C A) where
  -- What was held before is still held, in front of what has come since.
  abbrev Keeps : List A → Source C A → Type 0
  Keeps held s = (later : List A) × (channel.held s.queue ≡ held ++ later)

  -- A reading that waits is the one that is passed on.
  abbrev pub PassesOn : List A → Source C A → Type 0
  PassesOn held s = (held ≡ []) ⊎ ((a : A) × (rest : List A) × (held ≡ a ∷ rest) × (s.latest ≡ a))

  arrive-Keeps :
      (held : List A) (a : A) (s : Source C A) → Keeps held s → Keeps held (arrive channel a s)
  unfolding arrive offered
  arrive-Keeps held a s (later, e) = elim (try_send-cases channel s.queue a) [
    | inl (q, sent, now) ↦ (
      later ++ a ∷ [],
      rw sent (now ∙ ap (λ t. t ++ a ∷ []) e ∙ append_assoc held later (a ∷ [])),
    )
    | inr (refused, full) ↦ (later, rw refused e)
  ]

  look-PassesOn : (held : List A) (s : Source C A) → Keeps held s → PassesOn held (look channel s)
  unfolding look taken
  look-PassesOn [] s k = inl refl
  look-PassesOn (a ∷ rest) s (later, e) = elim (try_receive-cases channel s.queue) [
    | inl (empty, got) ↦ absurd (cons_nil (sym e ∙ empty))
    | inr (b, q, got, before) ↦ inr (a, rest, refl, rw got (ap (first_or b) (sym before ∙ e)))
  ]
    where
      cons_nil : a ∷ (rest ++ later) ≡ [] → ⊥
      cons_nil e = ground (arith, e)

-- A producer's reading, of whatever source.
abbrev pub IsReading : {R Q : Type 0} → Event R Q → Type 0
IsReading second_passed = ⊥
IsReading _ = Unit {0}

abbrev pub AreReadings : {R Q : Type 0} → List (Event R Q) → Type 0
AreReadings [] = Unit {0}
AreReadings (e ∷ es) = IsReading e × AreReadings es

module _ {R Q CM CB CI CN : Type 0} (motors : Channel CM (MotorTelemetry R))
    (batteries : Channel CB (BatteryTelemetry R)) (imus : Channel CI (ImuTelemetry R Q))
    (networks : Channel CN NetworkTelemetry) where
  abbrev AllKeep : Aggregator R Q CM CB CI CN → Aggregator R Q CM CB CI CN → Type 0
  AllKeep s t =
      Keeps motors (motors.held s.motor.queue) t.motor
      × Keeps batteries (batteries.held s.battery.queue) t.battery
      × Keeps imus (imus.held s.imu.queue) t.imu
      × Keeps networks (networks.held s.network.queue) t.network
      × (t.aggregated_telemetry ≡ s.aggregated_telemetry)

  step-AllKeep :
      (e : Event R Q) (s t : Aggregator R Q CM CB CI CN)
      → IsReading e
      → AllKeep s t
      → AllKeep s (step motors batteries imus networks e t)
  unfolding step
  step-AllKeep (motor_reading a) s t reading (m, b, i, n, o) =
      (arrive-Keeps motors (motors.held s.motor.queue) a t.motor m, b, i, n, o)
  step-AllKeep (battery_reading a) s t reading (m, b, i, n, o) =
      (m, arrive-Keeps batteries (batteries.held s.battery.queue) a t.battery b, i, n, o)
  step-AllKeep (imu_reading a) s t reading (m, b, i, n, o) =
      (m, b, arrive-Keeps imus (imus.held s.imu.queue) a t.imu i, n, o)
  step-AllKeep (network_reading a) s t reading (m, b, i, n, o) =
      (m, b, i, arrive-Keeps networks (networks.held s.network.queue) a t.network n, o)
  step-AllKeep second_passed s t reading k = absurd reading

  run-AllKeep :
      (es : List (Event R Q)) (s t : Aggregator R Q CM CB CI CN)
      → AreReadings es
      → AllKeep s t
      → AllKeep s (run motors batteries imus networks es t)
  unfolding run
  run-AllKeep [] s t readings k = k
  run-AllKeep (e ∷ es) s t (first, later) k =
      run-AllKeep es s (step motors batteries imus networks e t) later (step-AllKeep e s t first k)

  same-AllKeep : (s : Aggregator R Q CM CB CI CN) → AllKeep s s
  same-AllKeep s = (
    ([], sym (append-nil (motors.held s.motor.queue))),
    ([], sym (append-nil (batteries.held s.battery.queue))),
    ([], sym (append-nil (imus.held s.imu.queue))),
    ([], sym (append-nil (networks.held s.network.queue))),
    refl,
  )

  -- Whatever the producers offer in a second, at its end the task offers one telemetry, which carries of
  -- each source that held something at the beginning the reading that had waited longest there: not the
  -- newest one.
  pub aggregate-run :
      (es : List (Event R Q)) (s : Aggregator R Q CM CB CI CN)
      → AreReadings es
      → let now =
          aggregate motors batteries imus networks (run motors batteries imus networks es s) in
        PassesOn motors (motors.held s.motor.queue) now.motor
        × PassesOn batteries (batteries.held s.battery.queue) now.battery
        × PassesOn imus (imus.held s.imu.queue) now.imu
        × PassesOn networks (networks.held s.network.queue) now.network
        × (now.aggregated_telemetry
            ≡ record {
              motor_telemetry = now.motor.latest;
              battery_telemetry = now.battery.latest;
              imu_telemetry = now.imu.latest;
              network_telemetry = now.network.latest;
            }
              ∷ s.aggregated_telemetry)
  unfolding aggregate
  aggregate-run es s readings =
      let t = run motors batteries imus networks es s in
      let now = aggregate motors batteries imus networks t in
      let (m, b, i, n, o) = run-AllKeep es s s readings (same-AllKeep s) in
      (
        look-PassesOn motors (motors.held s.motor.queue) t.motor m,
        look-PassesOn batteries (batteries.held s.battery.queue) t.battery b,
        look-PassesOn imus (imus.held s.imu.queue) t.imu i,
        look-PassesOn networks (networks.held s.network.queue) t.network n,
        ap
            (λ offers.
              record {
                motor_telemetry = now.motor.latest;
                battery_telemetry = now.battery.latest;
                imu_telemetry = now.imu.latest;
                network_telemetry = now.network.latest;
              }
              ∷ offers)
            o,
      )
