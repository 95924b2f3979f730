-- ===== src/Battery/Charger.antt =====
-- src/drivers/battery_charger.rs: the BQ25887 as the firmware uses it, with the interface
-- `BatteryCharger` of src/traits.rs. The register driver is the crate `bq25887`, which is not part of
-- this repository: every call on it is recorded, and its reply is asked of an arbitrary function of
-- the calls before it.
pub mod Decode
use Prim.Native.Nat.{bit_and}
use project_emerge_dropbot_f.Prelude.{
  ℕ, ◌%◌, ◌<◌, ◌≡◌, refl, Bool, true, false, ◌&&◌, Option, none, some, List, [], ◌∷◌, if◌then◌else◌,
  ◌==◌, Result, ok, err, arith, ==_iff,
}
use project_emerge_dropbot_f.Prelude.Int.{ℤ}
use project_emerge_dropbot_f.Prelude.Words.{IsU8}
use project_emerge_dropbot_f.Battery.{
  ChargeState, trickle, top_off, done, ChargerFault, thermal_shutdown, input_over_voltage,
  safety_timer, ThermistorState, normal, warm, cool, cold, hot, ChargerStatus,
}

-- The crate's `ChrgStat`.
pub data ChrgStat : Type 0 where
  not_charging trickle_charge pre_charge fast_charge taper_charge topoff_timer_charging : ChrgStat
  charge_termination_done reserved : ChrgStat

-- The crate's fault register, as far as it is read.
pub record FaultStatus : Type 0 where
  pub tshut_stat : Bool
  pub vbus_ovp_stat : Bool
  pub tmr_stat : Bool

pub data Call : Type 0 where
  read_part_information disable_watchdog enable_adc_continuous : Call
  get_charge_status is_power_good read_vbat_mv read_vcell_top_mv read_vcell_bot_mv : Call
  read_vbus_mv read_ichg_ma read_ibus_ma read_tdie_decidegrees read_fault_status : Call
  read_ntc_status : Call

pub record Device (E : Type 0) : Type 0 where
  pub command : List Call → Call → Result E (Unit {0})
  pub charge_status : List Call → Result E ChrgStat
  pub power_good : List Call → Result E Bool
  -- The readings in u16.
  pub word : List Call → Call → Result E ℕ
  pub tdie : List Call → Result E ℤ
  pub fault_status : List Call → Result E FaultStatus
  pub ntc_status : List Call → Result E ℕ

-- A transaction: the calls made, the latest first, and a value or the first error.
abbrev pub Transaction : Type 0 → Type 0 → Type 0
Transaction E A = List Call → List Call × Result E A

abbrev pub follow :
    {E A B : Type 0} → List Call × Result E A → (A → Transaction E B) → List Call × Result E B
follow (cs, ok a) k = k a cs
follow (cs, err e) k = (cs, err e)

infixl 5 ◌>>=◌ ◌>>◌
abbrev pub ◌>>=◌ : {E A B : Type 0} → Transaction E A → (A → Transaction E B) → Transaction E B
◌>>=◌ m k cs = follow (m cs) k

abbrev pub ◌>>◌ : {E B : Type 0} → Transaction E (Unit {0}) → Transaction E B → Transaction E B
m >> k = m >>= λ _. k

abbrev pub pure : {E A : Type 0} → A → Transaction E A
pure a cs = (cs, ok a)

unfoldable pub charge_state : ChrgStat → ChargeState
charge_state ChrgStat.not_charging = ChargeState.not_charging
charge_state trickle_charge = trickle
charge_state ChrgStat.pre_charge = ChargeState.pre_charge
charge_state ChrgStat.fast_charge = ChargeState.fast_charge
charge_state ChrgStat.taper_charge = ChargeState.taper_charge
charge_state topoff_timer_charging = top_off
charge_state charge_termination_done = done
charge_state reserved = ChargeState.unknown

unfoldable pub thermistor_state : ℕ → ThermistorState
thermistor_state code =
    if code == 0
    then normal
    else if code == 2
    then warm
    else if code == 3
    then cool
    else if code == 5
    then cold
    else if code == 6
    then hot
    else ThermistorState.unknown

abbrev pub ts_stat_mask : ℕ
ts_stat_mask = 7

-- The first fault that is set, in the order of the source.
unfoldable pub first_fault : FaultStatus → Option ChargerFault
first_fault faults =
    if faults.tshut_stat
    then some thermal_shutdown
    else if faults.vbus_ovp_stat
    then some input_over_voltage
    else if faults.tmr_stat
    then some safety_timer
    else none

module _ {E : Type 0} (device : Device E) where
  -- One call of the crate: recorded, then answered from the calls before it.
  abbrev pub make : {A : Type 0} → Call → (List Call → Result E A) → Transaction E A
  make c answer cs = (c ∷ cs, answer cs)

  abbrev pub order : Call → Transaction E (Unit {0})
  order c = make c λ cs. device.command cs c

  abbrev pub reading : Call → Transaction E ℕ
  reading c = make c λ cs. device.word cs c

  unfoldable pub init : Transaction E (Unit {0})
  init = do order read_part_information; order disable_watchdog; order enable_adc_continuous

  unfoldable pub read_status : Transaction E ChargerStatus
  unfolding charge_state thermistor_state first_fault
  read_status = do
    stat ← make get_charge_status device.charge_status
    power_good ← make is_power_good device.power_good
    vbat_mv ← reading read_vbat_mv
    cell_top_mv ← reading read_vcell_top_mv
    cell_bot_mv ← reading read_vcell_bot_mv
    vbus_mv ← reading read_vbus_mv
    charge_current_ma ← reading read_ichg_ma
    input_current_ma ← reading read_ibus_ma
    die_temp_dc ← make read_tdie_decidegrees device.tdie
    faults ← make read_fault_status device.fault_status
    ntc ← make read_ntc_status device.ntc_status
    pure (record {
      state = charge_state stat;
      vbat_mv = vbat_mv;
      cell_top_mv = cell_top_mv;
      cell_bot_mv = cell_bot_mv;
      vbus_mv = vbus_mv;
      charge_current_ma = charge_current_ma;
      input_current_ma = input_current_ma;
      die_temp_dc = die_temp_dc;
      power_good = power_good;
      thermistor = thermistor_state (bit_and ntc ts_stat_mask);
      fault = first_fault faults;
    })
