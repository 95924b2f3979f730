-- ===== src/Battery/Charge.antt =====
-- The state of charge: bounds, order, the curve's own points, and the cell that it is read from.
use native.Mathlib.Nat.{
  mul-le-mul_right, mul-le-mul, div-le_of_le-mul, min-eq_left, min-eq_right, le_trans,
  le-div_iff_mul-le, div-mul-le_self, mod-eq_of_lt,
}
use project_emerge_dropbot_f.Prelude.{
  ◌==◌, inl, inr, sym, le_cases, ℕ, ◌+◌, ◌-◌, ◌*◌, ◌/◌, ◌≤◌, ◌<◌, ◌≡◌, refl, [], ◌∷◌, arith, min,
  leb, if◌then◌else◌,
}
use project_emerge_dropbot_f.Prelude.Words.{sub_u16, sub_u8, u32}
use project_emerge_dropbot_f.Battery.{
  Curve, ocv_curve, ocv_curve_above, interpolate, scan_windows, soc_of_curve, soc_from_cell_mv,
  state_of_charge, ChargerStatus,
}

-- Where no operation wraps, a window is the line between its points, rounded down.
abbrev pub line : ℕ → ℕ × ℕ → ℕ × ℕ → ℕ
line c low high = low.1 + (c - low.0) * (high.1 - low.1) / (high.0 - low.0)

-- A window's points as the curve has them: voltages rise, and percentages do not fall.
pub record IsWindow (low high : ℕ × ℕ) : Type 0 where
  pub volts : low.0 < high.0
  pub volts_u16 : high.0 < 65536
  pub percent : low.1 ≤ high.1
  pub percent_capped : high.1 ≤ 100

share_le : (a s r : ℕ) → a ≤ s → a * r / s ≤ r
share_le a s r h = div-le_of_le-mul s (mul-le-mul_right r h)

share_mono : (a b r s : ℕ) → 0 < s → a ≤ b → a * r / s ≤ b * r / s
share_mono a b r s pos h =
    (le-div_iff_mul-le pos).1 (le_trans (div-mul-le_self (a * r) s) (mul-le-mul_right r h))

interpolate-line :
    (c : ℕ) (low high : ℕ × ℕ)
    → IsWindow low high
    → low.0 ≤ c
    → c ≤ high.0
    → interpolate c low high ≡ line c low high
unfolding interpolate
interpolate-line c low high w l h =
    let span : sub_u16 high.0 low.0 ≡ high.0 - low.0 = omega arith in
    let offset : sub_u16 c low.0 ≡ c - low.0 = omega arith in
    let rise : sub_u8 high.1 low.1 ≡ high.1 - low.1 = omega arith in
    let product : (c - low.0) * (high.1 - low.1) ≤ 65535 * 100 =
      mul-le-mul {n₂ = 65535} {m₂ = 100} (omega arith) (omega arith) in
    let share : (c - low.0) * (high.1 - low.1) / (high.0 - low.0) ≤ high.1 - low.1 =
      share_le (c - low.0) (high.0 - low.0) (high.1 - low.1) (omega arith) in
    let exact : u32 ((c - low.0) * (high.1 - low.1)) ≡ (c - low.0) * (high.1 - low.1) =
      mod-eq_of_lt (omega arith) in
    rw (span, offset, rise, exact) (omega arith)

-- Inside its window the line stays between the two percentages, and it does not fall.
line_bounds :
    (c : ℕ) (low high : ℕ × ℕ)
    → IsWindow low high
    → low.0 ≤ c
    → c ≤ high.0
    → (low.1 ≤ line c low high) × (line c low high ≤ high.1)
line_bounds c low high w l h =
    let share : (c - low.0) * (high.1 - low.1) / (high.0 - low.0) ≤ high.1 - low.1 =
      share_le (c - low.0) (high.0 - low.0) (high.1 - low.1) (omega arith) in
    (omega arith, omega arith)

line_mono :
    (a b : ℕ) (low high : ℕ × ℕ) → IsWindow low high → a ≤ b → line a low high ≤ line b low high
line_mono a b low high w h = omega (
  arith,
  share_mono (a - low.0) (b - low.0) (high.1 - low.1) (high.0 - low.0) (omega arith) (omega arith),
)

-- Each two neighbours of the curve make a window, and the curve ends at 100 percent.
abbrev pub IsCurve : Curve → Type 0
IsCurve [] = Unit {0}
IsCurve (low ∷ []) = low.1 ≡ 100
IsCurve (low ∷ high ∷ rest) = IsWindow low high × IsCurve (high ∷ rest)

-- The specification: a number of percent for each voltage, piecewise linear, with no machine words.
abbrev pub piecewise : ℕ → Curve → ℕ
piecewise c [] = 100
piecewise c (low ∷ []) = 100
piecewise c (low ∷ high ∷ rest) =
    let later = piecewise c (high ∷ rest) in if leb c high.0 then line c low high else later

scan_windows-piecewise :
    (c : ℕ) (low : ℕ × ℕ) (rest : Curve)
    → IsCurve (low ∷ rest)
    → low.0 ≤ c
    → scan_windows c (low ∷ rest) ≡ piecewise c (low ∷ rest)
unfolding scan_windows
scan_windows-piecewise c low [] w l = refl
scan_windows-piecewise c low (high ∷ rest) w l =
    ground (arith, interpolate-line c low high w.0 l, scan_windows-piecewise c high rest w.1)

piecewise_bounds :
    (c : ℕ) (low : ℕ × ℕ) (rest : Curve)
    → IsCurve (low ∷ rest)
    → low.0 ≤ c
    → (low.1 ≤ piecewise c (low ∷ rest)) × (piecewise c (low ∷ rest) ≤ 100)
piecewise_bounds c low [] w l = omega arith
piecewise_bounds c low (high ∷ rest) w l =
    ground (arith, line_bounds c low high w.0 l, piecewise_bounds c high rest w.1, w.0)

piecewise_mono :
    (a b : ℕ) (low : ℕ × ℕ) (rest : Curve)
    → IsCurve (low ∷ rest)
    → low.0 ≤ a
    → a ≤ b
    → piecewise a (low ∷ rest) ≤ piecewise b (low ∷ rest)
piecewise_mono a b low [] w l h = omega arith
piecewise_mono a b low (high ∷ rest) w l h = ground (
  arith,
  line_mono a b low high w.0 h,
  line_bounds a low high w.0 l,
  piecewise_bounds b high rest w.1,
  piecewise_mono a b high rest w.1,
)

ocv_curve-IsCurve : IsCurve ocv_curve
ocv_curve-IsCurve = omega arith

-- The specification of the whole function, on any curve.
abbrev pub charge_at : ℕ × ℕ → Curve → ℕ → ℕ
charge_at lowest rest c = if leb c lowest.0 then lowest.1 else piecewise c (lowest ∷ rest)

soc_of_curve-charge_at :
    (lowest : ℕ × ℕ) (rest : Curve) (c : ℕ)
    → IsCurve (lowest ∷ rest)
    → soc_of_curve (lowest ∷ rest) c ≡ charge_at lowest rest c
unfolding soc_of_curve
soc_of_curve-charge_at lowest rest c w = ground (arith, scan_windows-piecewise c lowest rest w)

charge_at-le :
    (lowest : ℕ × ℕ) (rest : Curve) (c : ℕ)
    → IsCurve (lowest ∷ rest)
    → lowest.1 ≤ 100
    → charge_at lowest rest c ≤ 100
charge_at-le lowest rest c w h = ground (arith, piecewise_bounds c lowest rest w)

charge_at_mono :
    (lowest : ℕ × ℕ) (rest : Curve) (a b : ℕ)
    → IsCurve (lowest ∷ rest)
    → a ≤ b
    → charge_at lowest rest a ≤ charge_at lowest rest b
charge_at_mono lowest rest a b w h =
    ground (arith, piecewise_bounds b lowest rest w, piecewise_mono a b lowest rest w)

-- The state of charge is the exact piecewise linear curve, in numbers that cannot overflow: none of
-- the 16-bit subtractions, the 32-bit products or the final 8-bit cast wraps, at any voltage.
pub soc_from_cell_mv-charge_at :
    (c : ℕ) → soc_from_cell_mv c ≡ charge_at (3000, 0) (ocv_curve_above) c
unfolding soc_from_cell_mv
soc_from_cell_mv-charge_at c = soc_of_curve-charge_at (3000, 0) ocv_curve_above c ocv_curve-IsCurve

-- The state of charge never exceeds 100 percent.
pub soc_from_cell_mv-le : (c : ℕ) → soc_from_cell_mv c ≤ 100
soc_from_cell_mv-le c =
    rw (soc_from_cell_mv-charge_at c)
      (charge_at-le (3000, 0) ocv_curve_above c ocv_curve-IsCurve (omega arith))

-- A higher cell voltage never reads as a lower state of charge.
pub soc_from_cell_mv_mono : (a b : ℕ) → a ≤ b → soc_from_cell_mv a ≤ soc_from_cell_mv b
soc_from_cell_mv_mono a b h =
    rw (soc_from_cell_mv-charge_at a, soc_from_cell_mv-charge_at b)
      (charge_at_mono (3000, 0) ocv_curve_above a b ocv_curve-IsCurve h)

soc_from_cell_mv-min :
    (a b : ℕ) → soc_from_cell_mv (min a b) ≡ min (soc_from_cell_mv a) (soc_from_cell_mv b)
soc_from_cell_mv-min a b = elim (le_cases a b) [
  | inl h ↦ rw (min-eq_left h) (sym (min-eq_left (soc_from_cell_mv_mono a b h)))
  | inr h ↦ rw (min-eq_right h) (sym (min-eq_right (soc_from_cell_mv_mono b a h)))
]

-- The specification: the lower figure of the two cells, of the one cell that has a sample, or that of
-- half the pack.
abbrev pub weakest : ChargerStatus → ℕ
weakest s =
    if s.cell_top_mv == 0
    then (if s.cell_bot_mv == 0
        then soc_from_cell_mv (s.vbat_mv / 2)
        else soc_from_cell_mv s.cell_bot_mv)
    else if s.cell_bot_mv == 0
    then soc_from_cell_mv s.cell_top_mv
    else min (soc_from_cell_mv s.cell_top_mv) (soc_from_cell_mv s.cell_bot_mv)

-- With a sample from both cells the reported figure is the lower of the two cells' own, whichever
-- cell it is; with a sample from one cell it is that cell's; with none it is that of half the pack.
pub state_of_charge-weakest : (s : ChargerStatus) → state_of_charge s ≡ weakest s
unfolding state_of_charge
state_of_charge-weakest s = ground (arith, soc_from_cell_mv-min s.cell_top_mv s.cell_bot_mv)
