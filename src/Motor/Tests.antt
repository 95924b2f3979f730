-- ===== src/Motor/Tests.antt =====
-- The drive on thousandths and on pins that answer: short runs, and the theorems on them.
use project_emerge_dropbot_f.Prelude.{◌≤◌, ◌≡◌, refl, none, some, List, [], ◌∷◌, ok, true}
use project_emerge_dropbot_f.Prelude.Int.{ℤ, pos, negsuc, ◌+ℤ◌, ◌-ℤ◌}
use project_emerge_dropbot_f.Float.{clamp, hundred}
use project_emerge_dropbot_f.Float.Fixed.{fixed, mul, fixed-IsIeee, fixed-IsMonotone}
use project_emerge_dropbot_f.Ota.Status.{preparing}
use project_emerge_dropbot_f.Motor.Driver.{
  Pins, PinCall, Driver, ain1, ain2, bin1, bin2, duty_percent, fully_off, sleep_high, set_speed,
  stop, get_status, stopped, duty_cycle_percent, smoothed,
}
use project_emerge_dropbot_f.Motor.Driver.Duty.{duty_cycle_percent_bounds}
use project_emerge_dropbot_f.Motor.Driver.Levels.{
  level, IsStill, is_awake, DrivesAt, stop-IsStill, set_speed-inputs,
}
use project_emerge_dropbot_f.Motor.Driver.Moments.{IsHealthy}
use project_emerge_dropbot_f.Motor.Task.{
  Controller, Wake, at_top, selecting, held, resumed, command, timeout, move, MotorTelemetry, start,
  step,
}
use project_emerge_dropbot_f.Motor.Task.Safety.{Inv, run, run-start-Inv, step_timeout}

abbrev quiet_pins : Pins (Unit {0}) (Unit {0})
quiet_pins = record { pwm = λ cs c. none; digital = λ cs c. none }

quiet_pins-IsHealthy : IsHealthy quiet_pins
quiet_pins-IsHealthy = record { pwm_answers = λ cs c. refl; digital_answers = λ cs c. refl }

abbrev driver : Driver ℤ
driver = record {
  config = record { ema_filter_alpha = none; min_duty_cycle = pos 300 };
  left_speed = pos 0;
  right_speed = pos 0;
  calls = [];
}

-- Half speed ahead on the left and full speed astern on the right.
turn :
    (set_speed fixed quiet_pins (pos 500) (negsuc 999) driver).0.calls
    ≡ duty_percent ain2 100
      ∷ fully_off ain1
      ∷ fully_off bin2
      ∷ duty_percent bin1 65
      ∷ sleep_high
      ∷ []
unfolding set_speed smoothed duty_cycle_percent clamp mul ◌+ℤ◌ ◌-ℤ◌
turn = refl

-- From full speed astern to half speed ahead both inputs of the right motor are driven for a moment.
abbrev overlap : List PinCall
overlap =
    duty_percent ain1 65
    ∷ fully_off bin2
    ∷ duty_percent bin1 65
    ∷ sleep_high
    ∷ (set_speed fixed quiet_pins (pos 500) (negsuc 999) driver).0.calls

reversal :
    (set_speed fixed quiet_pins
      (pos 500)
      (pos 500)
      (set_speed fixed quiet_pins (pos 500) (negsuc 999) driver).0).0.calls
    ≡ fully_off ain2 ∷ overlap
unfolding set_speed smoothed duty_cycle_percent clamp mul ◌+ℤ◌ ◌-ℤ◌
reversal = refl

both_driven : (level ain1 overlap ≡ 65) × (level ain2 overlap ≡ 100)
unfolding set_speed smoothed duty_cycle_percent clamp mul ◌+ℤ◌ ◌-ℤ◌
both_driven = (refl, refl)

duty_cycle_percent_bounds_example :
    (duty_cycle_percent fixed (pos 20) (pos 300) ≤ 100)
    × (fixed.to_u8 (fixed.mul (pos 300) (hundred fixed))
        ≤ duty_cycle_percent fixed (pos 20) (pos 300))
duty_cycle_percent_bounds_example =
    duty_cycle_percent_bounds fixed (pos 20) (pos 300) fixed-IsMonotone refl refl refl

stop-IsStill_example :
    IsStill (stop fixed quiet_pins driver).0.calls
    × (is_awake (stop fixed quiet_pins driver).0.calls ≡ true)
    × (get_status fixed quiet_pins (stop fixed quiet_pins driver).0 ≡ ok stopped)
    × ((stop fixed quiet_pins driver).0.config ≡ driver.config)
unfolding stop
stop-IsStill_example = stop-IsStill fixed quiet_pins driver fixed-IsIeee refl

set_speed-inputs_example :
    DrivesAt fixed
      (smoothed fixed none (pos 0) (pos 500))
      (smoothed fixed none (pos 0) (negsuc 999))
      driver
      (set_speed fixed quiet_pins (pos 500) (negsuc 999) driver).0
unfolding set_speed mul
set_speed-inputs_example = set_speed-inputs fixed quiet_pins driver (pos 500) (negsuc 999) refl

abbrev wakes : List (Wake ℤ)
wakes =
    resumed none
    ∷ command (move (pos 500) (pos 500))
    ∷ resumed (some preparing)
    ∷ command (move (pos 900) (pos 900))
    ∷ []

run-start-Inv_example : Inv (run fixed quiet_pins wakes (start fixed quiet_pins))
run-start-Inv_example = run-start-Inv fixed quiet_pins wakes quiet_pins-IsHealthy fixed-IsIeee

abbrev updating : Controller ℤ
updating = record { driver = driver; phase = held; telemetry = [] }

abbrev waiting : Controller ℤ
waiting = record updating { phase = selecting }

step_timeout_example :
    IsStill (step fixed quiet_pins timeout waiting).driver.calls
    × ((step fixed quiet_pins timeout waiting).telemetry ≡ MotorTelemetry.stopped ∷ [])
    × ((step fixed quiet_pins timeout waiting).phase ≡ at_top)
unfolding stop
step_timeout_example = step_timeout fixed quiet_pins waiting fixed-IsIeee refl refl
