-- ===== src/Motor/Driver/Moments.antt =====
-- The inputs of the bridge between any two calls on its pins, from the first call on.
use project_emerge_dropbot_f.Prelude.{
  ℕ, ◌≡◌, refl, ◌⊎◌, inl, inr, true, false, none, List, [], ◌∷◌, arith, if◌then◌else◌,
}
use project_emerge_dropbot_f.Float.{F32, zero}
use project_emerge_dropbot_f.Motor.Driver.{
  Pin, ain1, ain2, bin1, bin2, PinCall, duty_percent, fully_off, sleep_high, sleep_low, Pins,
  Driver, duty_cycle_percent, smoothed, set_speed, stop,
}
use project_emerge_dropbot_f.Motor.Driver.Levels.{level}

-- No pin refuses a call.
pub record IsHealthy {P D : Type 0} (pins : Pins P D) : Type 0 where
  pub pwm_answers : (cs : List PinCall) (c : PinCall) → pins.pwm cs c ≡ none
  pub digital_answers : (cs : List PinCall) (c : PinCall) → pins.digital cs c ≡ none

-- Of the two inputs of each motor at most one is driven.
pub record IsExclusive (cs : List PinCall) : Type 0 where
  pub right_motor : (level ain1 cs ≡ 0) ⊎ (level ain2 cs ≡ 0)
  pub left_motor : (level bin1 cs ≡ 0) ⊎ (level bin2 cs ≡ 0)

-- At most one input of a motor is driven, or the last call has just driven the first one.
abbrev pub IsMoment : Pin → Pin → List PinCall → Type 0
IsMoment in1 in2 cs =
    (level in1 cs ≡ 0)
    ⊎ (level in2 cs ≡ 0)
    ⊎ ((n : ℕ) × (before : List PinCall) × (cs ≡ duty_percent in1 n ∷ before))

-- That holds after every call.
abbrev pub Throughout : Pin → Pin → List PinCall → Type 0
Throughout in1 in2 [] = Unit {0}
Throughout in1 in2 (c ∷ cs) = IsMoment in1 in2 (c ∷ cs) × Throughout in1 in2 cs

pub record IsCalm (cs : List PinCall) : Type 0 where
  pub exclusive : IsExclusive cs
  pub right_moments : Throughout ain1 ain2 cs
  pub left_moments : Throughout bin1 bin2 cs

moment : {A B C : Type 0} → A ⊎ B → A ⊎ B ⊎ C
moment (inl h) = inl h
moment (inr h) = inr (inl h)

sleep_high-IsCalm : (cs : List PinCall) → IsCalm cs → IsCalm (sleep_high ∷ cs)
sleep_high-IsCalm cs c = record {
  exclusive = record { right_motor = c.exclusive.right_motor; left_motor = c.exclusive.left_motor };
  right_moments = (moment c.exclusive.right_motor, c.right_moments);
  left_moments = (moment c.exclusive.left_motor, c.left_moments);
}

pub sleep_low-IsCalm : (cs : List PinCall) → IsCalm cs → IsCalm (sleep_low ∷ cs)
sleep_low-IsCalm cs c = record {
  exclusive = record { right_motor = c.exclusive.right_motor; left_motor = c.exclusive.left_motor };
  right_moments = (moment c.exclusive.right_motor, c.right_moments);
  left_moments = (moment c.exclusive.left_motor, c.left_moments);
}

right_forward :
    (n : ℕ) (cs : List PinCall) → IsCalm cs → IsCalm (fully_off ain2 ∷ duty_percent ain1 n ∷ cs)
right_forward n cs c = record {
  exclusive = record { right_motor = inr refl; left_motor = c.exclusive.left_motor };
  right_moments = (inr (inl refl), (inr (inr (n, cs, refl)), c.right_moments));
  left_moments = (moment c.exclusive.left_motor, (moment c.exclusive.left_motor, c.left_moments));
}

right_backward :
    (n : ℕ) (cs : List PinCall) → IsCalm cs → IsCalm (duty_percent ain2 n ∷ fully_off ain1 ∷ cs)
right_backward n cs c = record {
  exclusive = record { right_motor = inl refl; left_motor = c.exclusive.left_motor };
  right_moments = (inl refl, (inl refl, c.right_moments));
  left_moments = (moment c.exclusive.left_motor, (moment c.exclusive.left_motor, c.left_moments));
}

right_idle :
    (cs : List PinCall) → IsCalm cs → IsCalm (duty_percent ain2 0 ∷ duty_percent ain1 0 ∷ cs)
right_idle cs c = record {
  exclusive = record { right_motor = inl refl; left_motor = c.exclusive.left_motor };
  right_moments = (inl refl, (inl refl, c.right_moments));
  left_moments = (moment c.exclusive.left_motor, (moment c.exclusive.left_motor, c.left_moments));
}

left_forward :
    (n : ℕ) (cs : List PinCall) → IsCalm cs → IsCalm (fully_off bin2 ∷ duty_percent bin1 n ∷ cs)
left_forward n cs c = record {
  exclusive = record { right_motor = c.exclusive.right_motor; left_motor = inr refl };
  left_moments = (inr (inl refl), (inr (inr (n, cs, refl)), c.left_moments));
  right_moments =
      (moment c.exclusive.right_motor, (moment c.exclusive.right_motor, c.right_moments));
}

left_backward :
    (n : ℕ) (cs : List PinCall) → IsCalm cs → IsCalm (duty_percent bin2 n ∷ fully_off bin1 ∷ cs)
left_backward n cs c = record {
  exclusive = record { right_motor = c.exclusive.right_motor; left_motor = inl refl };
  left_moments = (inl refl, (inl refl, c.left_moments));
  right_moments =
      (moment c.exclusive.right_motor, (moment c.exclusive.right_motor, c.right_moments));
}

left_idle :
    (cs : List PinCall) → IsCalm cs → IsCalm (duty_percent bin2 0 ∷ duty_percent bin1 0 ∷ cs)
left_idle cs c = record {
  exclusive = record { right_motor = c.exclusive.right_motor; left_motor = inl refl };
  left_moments = (inl refl, (inl refl, c.left_moments));
  right_moments =
      (moment c.exclusive.right_motor, (moment c.exclusive.right_motor, c.right_moments));
}

module _ {R P D : Type 0} (f : F32 R) (pins : Pins P D) where
  -- The calls for one motor where no pin refuses one, the latest first.
  abbrev pub output : R → R → Pin → Pin → List PinCall → List PinCall
  output speed min in1 in2 cs =
      if f.lt (zero f) speed
      then fully_off in2 ∷ duty_percent in1 (duty_cycle_percent f speed min) ∷ cs
      else (if f.lt speed (zero f)
          then duty_percent in2 (duty_cycle_percent f (f.neg speed) min) ∷ fully_off in1 ∷ cs
          else duty_percent in2 0 ∷ duty_percent in1 0 ∷ cs)

  set_speed-calls :
      (l r : R) (d : Driver R)
      → IsHealthy pins
      → let alpha = d.config.ema_filter_alpha in
        let min = d.config.min_duty_cycle in
        (set_speed f pins l r d).0.calls
        ≡ output
            (smoothed f alpha d.right_speed r)
            min
            ain1
            ain2
            (output (smoothed f alpha d.left_speed l) min bin1 bin2 (sleep_high ∷ d.calls))
  unfolding set_speed
  set_speed-calls l r d h = grind (arith, h.pwm_answers, h.digital_answers)

  stop-calls :
      (d : Driver R)
      → IsHealthy pins
      → let min = d.config.min_duty_cycle in
        (stop f pins d).0.calls
        ≡ output (zero f) min ain1 ain2 (output (zero f) min bin1 bin2 (sleep_high ∷ d.calls))
  unfolding stop
  stop-calls d h = grind (arith, h.pwm_answers, h.digital_answers)

  right_output-IsCalm :
      (speed min : R) (cs : List PinCall) → IsCalm cs → IsCalm (output speed min ain1 ain2 cs)
  right_output-IsCalm speed min cs c =
      elim (f.lt (zero f) speed)
        as (λ b. IsCalm (
          if b
          then fully_off ain2 ∷ duty_percent ain1 (duty_cycle_percent f speed min) ∷ cs
          else (if f.lt speed (zero f)
              then duty_percent ain2 (duty_cycle_percent f (f.neg speed) min) ∷ fully_off ain1 ∷ cs
              else duty_percent ain2 0 ∷ duty_percent ain1 0 ∷ cs))) [
                | true ↦ right_forward _ cs c
                | false ↦
                    elim (f.lt speed (zero f))
                      as (λ b. IsCalm (
                        if b
                        then duty_percent ain2 (duty_cycle_percent f (f.neg speed) min)
                          ∷ fully_off ain1
                          ∷ cs
                        else duty_percent ain2 0 ∷ duty_percent ain1 0 ∷ cs)) [
                          | true ↦ right_backward _ cs c
                          | false ↦ right_idle cs c
                        ]
              ]

  left_output-IsCalm :
      (speed min : R) (cs : List PinCall) → IsCalm cs → IsCalm (output speed min bin1 bin2 cs)
  left_output-IsCalm speed min cs c =
      elim (f.lt (zero f) speed)
        as (λ b. IsCalm (
          if b
          then fully_off bin2 ∷ duty_percent bin1 (duty_cycle_percent f speed min) ∷ cs
          else (if f.lt speed (zero f)
              then duty_percent bin2 (duty_cycle_percent f (f.neg speed) min) ∷ fully_off bin1 ∷ cs
              else duty_percent bin2 0 ∷ duty_percent bin1 0 ∷ cs))) [
                | true ↦ left_forward _ cs c
                | false ↦
                    elim (f.lt speed (zero f))
                      as (λ b. IsCalm (
                        if b
                        then duty_percent bin2 (duty_cycle_percent f (f.neg speed) min)
                          ∷ fully_off bin1
                          ∷ cs
                        else duty_percent bin2 0 ∷ duty_percent bin1 0 ∷ cs)) [
                          | true ↦ left_backward _ cs c
                          | false ↦ left_idle cs c
                        ]
              ]

  both-IsCalm :
      (right left min : R) (cs : List PinCall)
      → IsCalm cs
      → IsCalm (output right min ain1 ain2 (output left min bin1 bin2 (sleep_high ∷ cs)))
  both-IsCalm right left min cs c =
      right_output-IsCalm right min _ (left_output-IsCalm left min _ (sleep_high-IsCalm cs c))

  pub set_speed-IsCalm :
      (l r : R) (d : Driver R)
      → IsHealthy pins
      → IsCalm d.calls
      → IsCalm (set_speed f pins l r d).0.calls
  set_speed-IsCalm l r d h c =
      rw (set_speed-calls l r d h) (both-IsCalm _ _ d.config.min_duty_cycle d.calls c)

  pub stop-IsCalm :
      (d : Driver R) → IsHealthy pins → IsCalm d.calls → IsCalm (stop f pins d).0.calls
  stop-IsCalm d h c = rw (stop-calls d h) (both-IsCalm _ _ d.config.min_duty_cycle d.calls c)
