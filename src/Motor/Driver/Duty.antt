-- ===== src/Motor/Driver/Duty.antt =====
-- The duty cycle of a speed stays between the configured minimum and 100 percent.
use project_emerge_dropbot_f.Prelude.{◌≤◌, ◌≡◌, true, arith, Bool-cases, inl, inr}
use project_emerge_dropbot_f.Float.{F32, IsUnit, IsMonotone, zero, one, hundred, clamp}
use project_emerge_dropbot_f.Motor.Driver.{duty_cycle_percent}

module _ {R : Type 0} (f : F32 R) where
  one-IsUnit : IsMonotone f → IsUnit f (one f)
  one-IsUnit l = record { nonneg = l.lt_le _ _ l.zero_lt_one; at_most_one = l.one_le_one }

  -- A positive speed is clamped to a number from zero to one that is not zero.
  clamp-IsUnit :
      (speed : R)
      → IsMonotone f
      → f.lt (zero f) speed ≡ true
      → IsUnit f (clamp f speed (zero f) (one f))
        × (f.lt (zero f) (clamp f speed (zero f) (one f)) ≡ true)
  unfolding clamp
  clamp-IsUnit speed l h = elim (Bool-cases (f.lt (one f) speed)) [
    | inl big ↦ rw (l.not_lt_zero speed h, big) (one-IsUnit l, l.zero_lt_one)
    | inr small ↦
        rw (l.not_lt_zero speed h, small)
          (record { nonneg = l.lt_le _ _ h; at_most_one = l.le_one speed h small }, h)
  ]

  abbrev blend : R → R → R
  blend m min = f.add min (f.mul m (f.sub (one f) min))

  -- What the minimum leaves is shared out without passing one.
  blend-IsUnit :
      (m min : R)
      → IsMonotone f
      → IsUnit f m
      → IsUnit f min
      → IsUnit f (blend m min) × (f.le min (blend m min) ≡ true)
  blend-IsUnit m min l share unit =
      let rest = l.sub-IsUnit min unit in
      let part = l.mul-IsUnit m (f.sub (one f) min) share rest in
      let below = l.mul_le_self m (f.sub (one f) min) share rest in
      let above = l.le_add min _ unit part in
      (
        record {
          nonneg = l.le_trans _ _ _ unit.nonneg above;
          at_most_one =
              l.le_trans _ _ _ (l.add_mono min _ _ unit part rest below)
                (l.add_complement min unit);
        },
        above,
      )

  blend_bounds :
      (m min : R)
      → IsMonotone f
      → IsUnit f m
      → IsUnit f min
      → (f.to_u8 (f.mul (blend m min) (hundred f)) ≤ 100)
        × (f.to_u8 (f.mul min (hundred f)) ≤ f.to_u8 (f.mul (blend m min) (hundred f)))
  blend_bounds m min l share unit =
      let (blended, above) = blend-IsUnit m min l share unit in
      (
        omega (
          arith,
          l.scale_mono (blend m min) (one f) blended (one-IsUnit l) blended.at_most_one,
          l.scale_one,
        ),
        l.scale_mono min (blend m min) unit blended above,
      )

  -- A positive speed, of any size, gives a duty cycle of at most 100 percent and at least the
  -- configured minimum, provided that the configured minimum is between 0 and 1, and that the comparisons
  -- of f32, and its sums and products of numbers between 0 and 1, behave as IEEE 754 has them.
  pub duty_cycle_percent_bounds :
      (speed min : R)
      → IsMonotone f
      → f.lt (zero f) speed ≡ true
      → f.le (zero f) min ≡ true
      → f.le min (one f) ≡ true
      → (duty_cycle_percent f speed min ≤ 100)
        × (f.to_u8 (f.mul min (hundred f)) ≤ duty_cycle_percent f speed min)
  unfolding duty_cycle_percent
  duty_cycle_percent_bounds speed min l h low high =
      let (share, above_zero) = clamp-IsUnit speed l h in
      rw (l.not_le_zero _ above_zero)
        (blend_bounds _ min l share (record { nonneg = low; at_most_one = high }))
