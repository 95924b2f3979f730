-- ===== src/Battery.antt =====
-- src/data/battery.rs: what the BQ25887 reports of the pack, and the state of charge read off it.
-- Voltages and currents are u16, the percentage is u8; the wrap of each operation is written out.
pub mod Charge
pub mod Charger
pub mod Monitor
mod Tests
use project_emerge_dropbot_f.Prelude.{
  ℕ, ◌+◌, ◌*◌, ◌/◌, Bool, true, false, not, ◌&&◌, Option, none, some, List, [], ◌∷◌, leb, ◌==◌,
  if◌then◌else◌, min,
}
use project_emerge_dropbot_f.Prelude.Int.{ℤ}
use project_emerge_dropbot_f.Prelude.Text.{Text, codes}
use project_emerge_dropbot_f.Prelude.Words.{u8, u32, sub_u8, sub_u16}

pub data ChargeState : Type 0 where
  not_charging trickle pre_charge fast_charge taper_charge top_off done unknown : ChargeState

unfoldable pub is_charging : ChargeState → Bool
is_charging trickle = true
is_charging pre_charge = true
is_charging fast_charge = true
is_charging taper_charge = true
is_charging top_off = true
is_charging _ = false

unfoldable pub charge_state_label : ChargeState → Text
charge_state_label not_charging = codes "IDLE"
charge_state_label trickle = codes "TRICKLE"
charge_state_label pre_charge = codes "PRECHG"
charge_state_label fast_charge = codes "CHARGING"
charge_state_label taper_charge = codes "TAPER"
charge_state_label top_off = codes "TOP-OFF"
charge_state_label done = codes "FULL"
charge_state_label unknown = codes "?"

pub data ChargerFault : Type 0 where
  thermal_shutdown input_over_voltage safety_timer : ChargerFault

unfoldable pub charger_fault_label : ChargerFault → Text
charger_fault_label thermal_shutdown = codes "OVERTEMP"
charger_fault_label input_over_voltage = codes "VBUS OVP"
charger_fault_label safety_timer = codes "CHG TIMER"

pub data ThermistorState : Type 0 where
  normal warm cool cold hot unknown : ThermistorState

unfoldable pub thermistor_label : ThermistorState → Option Text
thermistor_label normal = none
thermistor_label warm = some (codes "PACK WARM")
thermistor_label cool = some (codes "PACK COOL")
thermistor_label cold = some (codes "PACK COLD")
thermistor_label hot = some (codes "PACK HOT")
thermistor_label ThermistorState.unknown = some (codes "PACK ?")

pub record ChargerStatus : Type 0 where
  pub state : ChargeState
  pub vbat_mv : ℕ
  pub cell_top_mv : ℕ
  pub cell_bot_mv : ℕ
  pub vbus_mv : ℕ
  pub charge_current_ma : ℕ
  pub input_current_ma : ℕ
  pub die_temp_dc : ℤ
  pub power_good : Bool
  pub thermistor : ThermistorState
  pub fault : Option ChargerFault

-- A point of the curve: resting cell voltage in millivolts, state of charge in percent.
abbrev pub Curve : Type 0
Curve = List (ℕ × ℕ)

abbrev pub ocv_curve_above : Curve
ocv_curve_above =
    (3300, 3)
    ∷ (3400, 8)
    ∷ (3500, 15)
    ∷ (3600, 25)
    ∷ (3700, 37)
    ∷ (3800, 50)
    ∷ (3900, 62)
    ∷ (4000, 75)
    ∷ (4100, 87)
    ∷ (4200, 100)
    ∷ []

abbrev pub ocv_curve : Curve
ocv_curve = (3000, 0) ∷ ocv_curve_above

abbrev pub vbus_present_mv : ℕ
vbus_present_mv = 3000

-- One window of the loop: the percentage between two points of the curve.
unfoldable pub interpolate : ℕ → ℕ × ℕ → ℕ × ℕ → ℕ
interpolate cell_mv (low_mv, low_percent) (high_mv, high_percent) =
    let span = sub_u16 high_mv low_mv in
    let offset = sub_u16 cell_mv low_mv in
    let rise = sub_u8 high_percent low_percent in
    u8 (u32 (low_percent + u32 (offset * rise) / span))

-- `for window in OCV_CURVE.windows(2)`: the first window whose upper voltage is not exceeded.
unfoldable pub scan_windows : ℕ → Curve → ℕ
unfolding interpolate
scan_windows cell_mv [] = 100
scan_windows cell_mv (low ∷ []) = 100
scan_windows cell_mv (low ∷ high ∷ rest) =
    let later = scan_windows cell_mv (high ∷ rest) in
    if leb cell_mv high.0 then interpolate cell_mv low high else later

-- `OCV_CURVE[0]` is read first: at or below its voltage the cell is empty.
unfoldable pub soc_of_curve : Curve → ℕ → ℕ
unfolding scan_windows
soc_of_curve [] cell_mv = 100
soc_of_curve (lowest ∷ rest) cell_mv =
    if leb cell_mv lowest.0 then lowest.1 else scan_windows cell_mv (lowest ∷ rest)

unfoldable pub soc_from_cell_mv : ℕ → ℕ
unfolding soc_of_curve
soc_from_cell_mv cell_mv = soc_of_curve ocv_curve cell_mv

unfoldable pub input_present : ChargerStatus → Bool
input_present s = leb vbus_present_mv s.vbus_mv

unfoldable pub input_unusable : ChargerStatus → Bool
unfolding input_present
input_unusable s = input_present s && not s.power_good

-- A cell that reads zero has no sample yet.
unfoldable pub reported_cell_mv : ChargerStatus → ℕ
reported_cell_mv s =
    if s.cell_top_mv == 0
    then (if s.cell_bot_mv == 0 then s.vbat_mv / 2 else s.cell_bot_mv)
    else (if s.cell_bot_mv == 0 then s.cell_top_mv else min s.cell_top_mv s.cell_bot_mv)

unfoldable pub state_of_charge : ChargerStatus → ℕ
unfolding reported_cell_mv
state_of_charge s = soc_from_cell_mv (reported_cell_mv s)
