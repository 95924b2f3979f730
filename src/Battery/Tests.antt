-- ===== src/Battery/Tests.antt =====
-- Inputs at which the theorems on the state of charge apply.
use project_emerge_dropbot_f.Prelude.{◌≡◌, refl, none, false}
use project_emerge_dropbot_f.Prelude.Int.{pos}
use project_emerge_dropbot_f.Battery.{
  ChargerStatus, ocv_curve_above, not_charging, ThermistorState, soc_from_cell_mv, state_of_charge,
  input_unusable,
}
use project_emerge_dropbot_f.Battery.Charge.{charge_at, soc_from_cell_mv-charge_at}

abbrev resting : ChargerStatus
resting = record {
  state = not_charging;
  vbat_mv = 7560;
  cell_top_mv = 3850;
  cell_bot_mv = 3710;
  vbus_mv = 41;
  charge_current_ma = 0;
  input_current_ma = 0;
  die_temp_dc = pos 312;
  power_good = false;
  thermistor = ThermistorState.normal;
  fault = none;
}

resting_soc : state_of_charge resting ≡ 38
unfolding state_of_charge soc_from_cell_mv
resting_soc = refl

resting_input : input_unusable resting ≡ false
unfolding input_unusable
resting_input = refl

soc_from_cell_mv-charge_at_example :
    soc_from_cell_mv 3850 ≡ charge_at (3000, 0) ocv_curve_above 3850
soc_from_cell_mv-charge_at_example = soc_from_cell_mv-charge_at 3850
