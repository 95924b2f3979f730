-- ===== src/Motor/Driver/Levels.antt =====
-- What the bridge is driven with: the pin levels that a sequence of calls leaves behind, and the
-- levels that each operation of the driver brings about.
use project_emerge_dropbot_f.Prelude.{
  ℕ, ◌≡◌, Bool, true, false, List, [], ◌∷◌, if◌then◌else◌, ok, arith,
}
use project_emerge_dropbot_f.Float.{F32, IsIeee, zero}
use project_emerge_dropbot_f.Motor.Driver.{
  Pin, ain1, ain2, bin1, bin2, PinCall, duty_percent, fully_off, sleep_high, sleep_low, Pins,
  Driver, set_speed, stop, get_status, smoothed, duty_cycle_percent, stopped,
}

abbrev pub pin_eq : Pin → Pin → Bool
pin_eq ain1 ain1 = true
pin_eq ain2 ain2 = true
pin_eq bin1 bin1 = true
pin_eq bin2 bin2 = true
pin_eq _ _ = false

-- The duty cycle that a pin was last given, in percent; a pin that was not given one is off.
abbrev pub level : Pin → List PinCall → ℕ
level p [] = 0
level p (duty_percent q n ∷ cs) = if pin_eq p q then n else level p cs
level p (fully_off q ∷ cs) = if pin_eq p q then 0 else level p cs
level p (sleep_high ∷ cs) = level p cs
level p (sleep_low ∷ cs) = level p cs

-- The sleep pin, which the task creates high.
abbrev pub is_awake : List PinCall → Bool
is_awake [] = true
is_awake (duty_percent q n ∷ cs) = is_awake cs
is_awake (fully_off q ∷ cs) = is_awake cs
is_awake (sleep_high ∷ cs) = true
is_awake (sleep_low ∷ cs) = false

-- No motor is driven.
pub record IsStill (cs : List PinCall) : Type 0 where
  pub ain1_off : level ain1 cs ≡ 0
  pub ain2_off : level ain2 cs ≡ 0
  pub bin1_off : level bin1 cs ≡ 0
  pub bin2_off : level bin2 cs ≡ 0

-- The table of the bridge: which input of a motor carries the duty cycle of a speed.
abbrev pub inputs : {R : Type 0} → F32 R → R → R → ℕ × ℕ
inputs f min speed =
    if f.lt (zero f) speed
    then (duty_cycle_percent f speed min, 0)
    else (if f.lt speed (zero f) then (0, duty_cycle_percent f (f.neg speed) min) else (0, 0))

-- The driver `d'`, which was `d`, holds these speeds, and its inputs follow the table.
pub record DrivesAt {R : Type 0} (f : F32 R) (l r : R) (d d' : Driver R) : Type 0 where
  pub left_held : d'.left_speed ≡ l
  pub right_held : d'.right_speed ≡ r
  pub awake : is_awake d'.calls ≡ true
  pub bin1_level : level bin1 d'.calls ≡ (inputs f d.config.min_duty_cycle l).0
  pub bin2_level : level bin2 d'.calls ≡ (inputs f d.config.min_duty_cycle l).1
  pub ain1_level : level ain1 d'.calls ≡ (inputs f d.config.min_duty_cycle r).0
  pub ain2_level : level ain2 d'.calls ≡ (inputs f d.config.min_duty_cycle r).1

module _ {R P D : Type 0} (f : F32 R) (pins : Pins P D) where
  -- A `stop` that no pin refuses leaves both motors off with the bridge awake, whatever they did
  -- before, and the driver reports itself stopped.
  pub stop-IsStill :
      (d : Driver R)
      → IsIeee f
      → (stop f pins d).1 ≡ ok tt
      → IsStill (stop f pins d).0.calls
        × (is_awake (stop f pins d).0.calls ≡ true)
        × (get_status f pins (stop f pins d).0 ≡ ok stopped)
        × ((stop f pins d).0.config ≡ d.config)
  unfolding stop get_status
  stop-IsStill d i h = ground (arith, i)

  -- A `set_speed` that no pin refuses wakes the bridge and leaves the four inputs as the table has
  -- them for the smoothed speeds, which are the speeds that the driver then reports.
  pub set_speed-inputs :
      (d : Driver R) (l r : R)
      → (set_speed f pins l r d).1 ≡ ok tt
      → DrivesAt f
          (smoothed f d.config.ema_filter_alpha d.left_speed l)
          (smoothed f d.config.ema_filter_alpha d.right_speed r)
          d
          (set_speed f pins l r d).0
  unfolding set_speed
  set_speed-inputs d l r h = ground arith
