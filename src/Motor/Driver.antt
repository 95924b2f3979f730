-- ===== src/Motor/Driver.antt =====
-- src/drivers/motor_driver: the DRV8833 H-bridge on four PWM pins and a sleep pin. The pins belong
-- to the hardware layer: every call on one is recorded, and a reply is asked of an arbitrary function
-- of the calls so far. The interface of the driver is `MotorController` of src/traits.rs.
pub mod Duty
pub mod Levels
pub mod Moments
use project_emerge_dropbot_f.Prelude.{
  ℕ, ◌+◌, ◌*◌, ◌≡◌, Bool, true, false, ◌&&◌, Option, none, some, List, [], ◌∷◌, if◌then◌else◌,
  Result, ok, err, map_err,
}
use project_emerge_dropbot_f.Float.{F32, zero, one, hundred, clamp}

pub data Pin : Type 0 where
  ain1 ain2 bin1 bin2 : Pin

-- `set_duty_cycle_percent`, `set_duty_cycle_fully_off`, `set_high` and `set_low` of the sleep pin.
pub data PinCall : Type 0 where
  duty_percent : Pin → ℕ → PinCall
  fully_off : Pin → PinCall
  sleep_high sleep_low : PinCall

-- What the pins answer to a call, after the calls made before it; `none` is success.
pub record Pins (P D : Type 0) : Type 0 where
  pub pwm : List PinCall → PinCall → Option P
  pub digital : List PinCall → PinCall → Option D

pub data Drv8833Error (P D : Type 0) : Type 0 where
  pwm_error : P → Drv8833Error P D
  digital_error : D → Drv8833Error P D

pub record MotorConfig (R : Type 0) : Type 0 where
  pub ema_filter_alpha : Option R
  pub min_duty_cycle : R

pub data Side : Type 0 where
  left right : Side

pub data MotorStatus (R : Type 0) : Type 0 where
  stopped : MotorStatus R
  motoring : R → R → MotorStatus R

-- The driver's own fields, and every call made on its pins, the latest first.
pub record Driver (R : Type 0) : Type 0 where
  pub config : MotorConfig R
  pub left_speed : R
  pub right_speed : R
  pub calls : List PinCall

unfoldable pub default_config : {R : Type 0} → F32 R → MotorConfig R
default_config f = record {
  ema_filter_alpha = some (f.literal 1 10);
  min_duty_cycle = f.literal 3 10;
}

unfoldable pub new : {R : Type 0} → F32 R → MotorConfig R → Driver R
new f config = record { config = config; left_speed = zero f; right_speed = zero f; calls = [] }

-- A method of the driver: it may fail, and what it did before that stays done.
abbrev pub Method : Type 0 → Type 0 → Type 0 → Type 0 → Type 0
Method R P D A = Driver R → Driver R × Result (Drv8833Error P D) A

abbrev pub follow :
    {R P D A B : Type 0}
    → Driver R × Result (Drv8833Error P D) A
    → (A → Method R P D B)
    → Driver R × Result (Drv8833Error P D) B
follow (d, ok a) k = k a d
follow (d, err e) k = (d, err e)

infixl 5 ◌>>=◌ ◌>>◌
abbrev pub ◌>>=◌ : {R P D A B : Type 0} → Method R P D A → (A → Method R P D B) → Method R P D B
◌>>=◌ m k d = follow (m d) k

abbrev pub ◌>>◌ : {R P D B : Type 0} → Method R P D (Unit {0}) → Method R P D B → Method R P D B
m >> k = m >>= λ _. k

module _ {R : Type 0} (f : F32 R) where
  unfoldable pub duty_cycle_percent : R → R → ℕ
  duty_cycle_percent speed min_duty_cycle =
      let magnitude = clamp f speed (zero f) (one f) in
      if f.le magnitude (zero f)
      then 0
      else f.to_u8 (
          f.mul (f.add min_duty_cycle (f.mul magnitude (f.sub (one f) min_duty_cycle))) (hundred f))

  -- The command after the moving average, if one is configured.
  unfoldable pub smoothed : Option R → R → R → R
  smoothed none held command = command
  smoothed (some alpha) held command = f.add held (f.mul alpha (f.sub command held))

module _ {R P D : Type 0} (f : F32 R) (pins : Pins P D) where
  abbrev made : PinCall → Driver R → Driver R
  made c d = record d { calls = c ∷ d.calls }

  unfoldable pub pwm_call : PinCall → Method R P D (Unit {0})
  pwm_call c d = elim (pins.pwm d.calls c) [
    | none ↦ (made c d, ok tt)
    | some e ↦ (made c d, err (pwm_error e))
  ]

  unfoldable pub digital_call : PinCall → Method R P D (Unit {0})
  digital_call c d = elim (pins.digital d.calls c) [
    | none ↦ (made c d, ok tt)
    | some e ↦ (made c d, err (digital_error e))
  ]

  unfoldable pub set_config : MotorConfig R → Method R P D (Unit {0})
  set_config config d = (record d { config = config }, ok tt)

  unfoldable pub set_motor_output : R → R → Pin → Pin → Method R P D (Unit {0})
  unfolding pwm_call
  set_motor_output speed min_duty_cycle in1 in2 =
      if f.lt (zero f) speed
      then (do
        pwm_call (duty_percent in1 (duty_cycle_percent f speed min_duty_cycle))
        pwm_call (fully_off in2))
      else if f.lt speed (zero f)
      then (do
        pwm_call (fully_off in1)
        pwm_call (duty_percent in2 (duty_cycle_percent f (f.neg speed) min_duty_cycle)))
      else (do pwm_call (duty_percent in1 0); pwm_call (duty_percent in2 0))

  -- The speed is recorded before the pins are written.
  unfoldable pub set_speed_side : Side → R → Method R P D (Unit {0})
  unfolding set_motor_output
  set_speed_side left speed d =
      set_motor_output speed d.config.min_duty_cycle bin1 bin2 (record d { left_speed = speed })
  set_speed_side right speed d =
      set_motor_output speed d.config.min_duty_cycle ain1 ain2 (record d { right_speed = speed })

  unfoldable pub set_speed : R → R → Method R P D (Unit {0})
  unfolding smoothed digital_call set_speed_side
  set_speed left_command right_command d =
      let left_speed = smoothed f d.config.ema_filter_alpha d.left_speed left_command in
      let right_speed = smoothed f d.config.ema_filter_alpha d.right_speed right_command in
      let run : Method R P D (Unit {0}) = do
        digital_call sleep_high
        set_speed_side left left_speed
        set_speed_side right right_speed
      in run d

  unfoldable pub stop : Method R P D (Unit {0})
  unfolding digital_call set_speed_side
  stop = do digital_call sleep_high; set_speed_side left (zero f); set_speed_side right (zero f)

  unfoldable pub get_status : Driver R → Result (Drv8833Error P D) (MotorStatus R)
  get_status d =
      if f.eq d.left_speed (zero f) && f.eq d.right_speed (zero f)
      then ok stopped
      else ok (motoring d.left_speed d.right_speed)

  unfoldable pub sleep : Method R P D (Unit {0})
  unfolding digital_call
  sleep = digital_call sleep_low
