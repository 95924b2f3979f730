-- ===== src/Motor/Task/Safety.antt =====
-- What the bridge is driven with over the life of the task: for updates, after a silence, and between
-- any two commands.
use project_emerge_dropbot_f.Prelude.{
  ap, ◌∙◌, ◌≡◌, ◌⊎◌, inl, refl, true, false, if◌then◌else◌, Option, none, some, List, [], ◌∷◌,
  Result, ok, err, arith,
}
use project_emerge_dropbot_f.Float.{F32, IsIeee}
use project_emerge_dropbot_f.Ota.Status.{OtaStatus, idle, is_active}
use project_emerge_dropbot_f.Motor.Driver.{
  sleep_low, follow, Drv8833Error, Method, PinCall, Pins, Driver, stop, sleep, set_config,
  set_config,
}
use project_emerge_dropbot_f.Motor.Driver.Levels.{is_awake, IsStill, stop-IsStill}
use project_emerge_dropbot_f.Motor.Driver.Moments.{
  IsHealthy, IsCalm, sleep_low-IsCalm, set_speed-IsCalm, stop-IsCalm,
}
use project_emerge_dropbot_f.Motor.Task.{
  Phase, at_top, selecting, held, Controller, MotorTelemetry, MotorsConfiguration, DriveCommand,
  move, stop_command, Wake, resumed, command, configuration, timeout, ota_changed, start, disable,
  look, obey, configure, report, wake, step,
}

-- No motor is driven and the bridge sleeps.
pub record IsDisabled (cs : List PinCall) : Type 0 where
  pub still : IsStill cs
  pub asleep : is_awake cs ≡ false

-- While an update holds the task the motors are disabled.
abbrev pub Holds : Phase → List PinCall → Type 0
Holds held cs = IsDisabled cs
Holds _ cs = Unit {0}

pub record Inv {R : Type 0} (c : Controller R) : Type 0 where
  pub calm : IsCalm c.driver.calls
  pub disabled : Holds c.phase c.driver.calls

follow-ok :
    {R P D A B : Type 0} (r : Driver R × Result (Drv8833Error P D) A) (k : A → Method R P D B)
    {a : A}
    → r.1 ≡ ok a
    → follow r k ≡ k a r.0
follow-ok (d, ok b) k h = ground arith
follow-ok (d, err e) k h = cc

module _ {R P D : Type 0} (f : F32 R) (pins : Pins P D) where
  abbrev pub run : List (Wake R) → Controller R → Controller R
  run [] c = c
  run (w ∷ ws) c = run ws (step f pins w c)

  stop_healthy : (d : Driver R) → IsHealthy pins → (stop f pins d).1 ≡ ok tt
  unfolding stop
  stop_healthy d h = grind (arith, h.pwm_answers, h.digital_answers)

  sleep-calls : (d : Driver R) → (sleep f pins d).0.calls ≡ sleep_low ∷ d.calls
  unfolding sleep
  sleep-calls d = ground arith

  disable-calls :
      (d : Driver R)
      → (stop f pins d).1 ≡ ok tt
      → (disable f pins d).0.calls ≡ sleep_low ∷ (stop f pins d).0.calls
  unfolding disable
  disable-calls d h =
      ap (λ r. r.0.calls) (follow-ok (stop f pins d) (λ _. sleep f pins) h)
      ∙ sleep-calls (stop f pins d).0

  -- Where no pin refuses, cutting the power for an update leaves no motor driven, and the bridge
  -- asleep.
  disable-IsDisabled :
      (d : Driver R) → IsHealthy pins → IsIeee f → IsDisabled (disable f pins d).0.calls
  disable-IsDisabled d h i =
      let still = (stop-IsStill f pins d i (stop_healthy d h)).0 in
      rw (disable-calls d (stop_healthy d h)) (record {
        still = record {
          ain1_off = still.ain1_off;
          ain2_off = still.ain2_off;
          bin1_off = still.bin1_off;
          bin2_off = still.bin2_off;
        };
        asleep = refl;
      })

  disable-IsCalm :
      (d : Driver R) → IsHealthy pins → IsCalm d.calls → IsCalm (disable f pins d).0.calls
  disable-IsCalm d h c =
      rw (disable-calls d (stop_healthy d h))
        (sleep_low-IsCalm (stop f pins d).0.calls (stop-IsCalm f pins d h c))

  look-Inv :
      (seen : Option OtaStatus) (c : Controller R)
      → IsHealthy pins
      → IsIeee f
      → Inv c
      → Inv (look f pins seen c)
  unfolding look
  look-Inv none c h i v = record { calm = v.calm; disabled = tt }
  look-Inv (some status) c h i v =
      elim (is_active status)
        as (λ b. Inv (
          if b
          then record c { driver = (disable f pins c.driver).0; phase = held }
          else record c { phase = selecting })) [
            | true ↦ record {
              calm = disable-IsCalm c.driver h v.calm;
              disabled = disable-IsDisabled c.driver h i;
            }
            | false ↦ record { calm = v.calm; disabled = tt }
          ]

  report-Inv : (d : Driver R) (c : Controller R) → IsCalm d.calls → Inv (report f pins d c)
  unfolding report
  report-Inv d c v = record { calm = v; disabled = tt }

  obey-IsCalm :
      (order : DriveCommand R) (d : Driver R)
      → IsHealthy pins
      → IsCalm d.calls
      → IsCalm (obey f pins order d).calls
  unfolding obey
  obey-IsCalm (move l r) d h c = set_speed-IsCalm f pins l r d h c
  obey-IsCalm stop_command d h c = stop-IsCalm f pins d h c

  configure-calls :
      (config : MotorsConfiguration R) (d : Driver R) → (configure f pins config d).calls ≡ d.calls
  unfolding configure set_config
  configure-calls config d = refl

  release-Inv :
      (status : OtaStatus) (c : Controller R)
      → c.phase ≡ held
      → Inv c
      → Inv (wake f pins held (ota_changed status) c)
  unfolding wake
  release-Inv status c e v =
      elim (is_active status) as (λ b. Inv (if b then c else record c { phase = selecting })) [
        | true ↦ v
        | false ↦ record { calm = v.calm; disabled = tt }
      ]

  wake-Inv :
      (p : Phase) (w : Wake R) (c : Controller R)
      → c.phase ≡ p
      → IsHealthy pins
      → IsIeee f
      → Inv c
      → Inv (wake f pins p w c)
  unfolding wake
  wake-Inv at_top (resumed seen) c e h i v = look-Inv seen c h i v
  wake-Inv selecting (command order) c e h i v =
      report-Inv _ c (obey-IsCalm order c.driver h v.calm)
  wake-Inv selecting (configuration config) c e h i v =
      report-Inv _ c (rw (configure-calls config c.driver) v.calm)
  wake-Inv selecting timeout c e h i v = report-Inv _ c (stop-IsCalm f pins c.driver h v.calm)
  wake-Inv held (ota_changed status) c e h i v = release-Inv status c e v
  wake-Inv _ _ c e h i v = v

  start-Inv : Inv (start f pins)
  unfolding start
  start-Inv = record {
    calm = record {
      exclusive = record { right_motor = inl refl; left_motor = inl refl };
      right_moments = tt;
      left_moments = tt;
    };
    disabled = tt;
  }

  run-Inv :
      (ws : List (Wake R)) (c : Controller R) → IsHealthy pins → IsIeee f → Inv c → Inv (run ws c)
  unfolding step
  run-Inv [] c h i v = v
  run-Inv (w ∷ ws) c h i v = run-Inv ws (step f pins w c) h i (wake-Inv c.phase w c refl h i v)

  -- Whatever commands, configurations, timeouts and update notices arrive, in any order, as long as the
  -- pins answer: whenever the task waits, no motor has both of its inputs driven, and while an update
  -- holds the task no motor is driven at all and the bridge sleeps. Within a wake-up both inputs of a
  -- motor are driven at most directly after the call that gives its first input a duty cycle, before the
  -- next call on the pins.
  pub run-start-Inv : (ws : List (Wake R)) → IsHealthy pins → IsIeee f → Inv (run ws (start f pins))
  run-start-Inv ws h i = run-Inv ws (start f pins) h i start-Inv

  -- While an update holds the task, no wake-up reaches the pins, the speeds or the telemetry, and only
  -- the notice that no update is active any more lets the task go on.
  pub step_held :
      (w : Wake R) (c : Controller R)
      → c.phase ≡ held
      → ((step f pins w c).driver ≡ c.driver)
        × ((step f pins w c).telemetry ≡ c.telemetry)
        × (((step f pins w c).phase ≡ held) ⊎ (w ≡ ota_changed idle))
  unfolding step is_active
  step_held w c e = ground arith

  -- A timeout of the command wait stops the robot: where no pin refuses the stop, no motor is driven
  -- afterwards, and the next telemetry says so.
  pub step_timeout :
      (c : Controller R)
      → IsIeee f
      → c.phase ≡ selecting
      → (stop f pins c.driver).1 ≡ ok tt
      → IsStill (step f pins timeout c).driver.calls
        × ((step f pins timeout c).telemetry ≡ MotorTelemetry.stopped ∷ c.telemetry)
        × ((step f pins timeout c).phase ≡ at_top)
  unfolding step
  step_timeout c i e h = ground (arith, stop-IsStill f pins c.driver i h)
