-- ===== src/Battery/Monitor.antt =====
-- src/tasks/battery_monitor.rs: the task that polls the charger. It probes the charger, then reads it
-- every two seconds; a failure of either sends it back to the probe after five seconds. A step is one
-- run of the task from a timer to the next. Log lines are left out.
pub mod Requests
mod Tests
use project_emerge_dropbot_f.Prelude.{
  ℕ, zero, suc, Bool, true, false, not, ◌&&◌, List, [], ◌∷◌, if◌then◌else◌, ltb, Result, ok, err,
}
use project_emerge_dropbot_f.Prelude.Int.{pos}
use project_emerge_dropbot_f.Float.{F32}
use project_emerge_dropbot_f.Power.{ShutdownReason, low_battery}
use project_emerge_dropbot_f.Battery.{ChargerStatus, is_charging, state_of_charge}
use project_emerge_dropbot_f.Battery.Charger.{Call, Device, init, read_status}

-- src/data/telemetry.rs
pub record BatteryTelemetry (R : Type 0) : Type 0 where
  pub voltage : R
  pub current : R
  pub temperature : R
  pub is_charging : Bool
  pub state_of_charge : ℕ

-- Durations in milliseconds.
abbrev pub poll_interval : ℕ
poll_interval = 2000

abbrev pub retry_interval : ℕ
retry_interval = 5000

abbrev pub low_battery_threshold : ℕ
low_battery_threshold = 15

pub data Phase : Type 0 where
  -- The timer that runs: none yet, the poll's, the retry's.
  starting polling retrying : Phase

pub data Effect (R : Type 0) : Type 0 where
  send_status : ChargerStatus → Effect R
  request_shutdown : ShutdownReason → Effect R
  offer_telemetry : BatteryTelemetry R → Effect R
  arm : ℕ → Effect R

-- The task, with the calls that it made on the charger and what else it did, the latest first.
pub record Monitor (R : Type 0) : Type 0 where
  pub phase : Phase
  pub calls : List Call
  pub effects : List (Effect R)

abbrev pub start : {R : Type 0} → Monitor R
start = record { phase = starting; calls = []; effects = [] }

unfoldable pub is_low : ChargerStatus → Bool
is_low s = ltb (state_of_charge s) low_battery_threshold && not (is_charging s.state)

module _ {R : Type 0} (f : F32 R) where
  unfoldable pub telemetry : ChargerStatus → BatteryTelemetry R
  telemetry s = record {
    voltage = f.div (f.of_int (pos s.vbat_mv)) (f.literal 1000 1);
    current = f.div (f.of_int (pos s.charge_current_ma)) (f.literal 1000 1);
    temperature = f.div (f.of_int s.die_temp_dc) (f.literal 10 1);
    is_charging = is_charging s.state;
    state_of_charge = state_of_charge s;
  }

  -- What a status that was read adds to the effects.
  unfoldable pub publish : ChargerStatus → List (Effect R) → List (Effect R)
  unfolding is_low telemetry
  publish s es =
      let sent = send_status s ∷ es in
      offer_telemetry (telemetry s)
      ∷ (if is_low s then request_shutdown low_battery ∷ sent else sent)

  -- After the probe.
  unfoldable pub probed :
      {E : Type 0} → List Call × Result E (Unit {0}) → List (Effect R) → Monitor R
  probed (cs, ok _) es = record { phase = polling; calls = cs; effects = arm poll_interval ∷ es }
  probed (cs, err e) es = record { phase = retrying; calls = cs; effects = arm retry_interval ∷ es }

  -- After a read.
  unfoldable pub polled :
      {E : Type 0} → List Call × Result E ChargerStatus → List (Effect R) → Monitor R
  unfolding publish
  polled (cs, ok s) es = record {
    phase = polling;
    calls = cs;
    effects = arm poll_interval ∷ publish s es;
  }
  polled (cs, err e) es = record { phase = retrying; calls = cs; effects = arm retry_interval ∷ es }

module _ {R E : Type 0} (f : F32 R) (device : Device E) where
  unfoldable pub advance : Phase → Monitor R → Monitor R
  unfolding probed polled
  advance starting m = probed f (init device m.calls) m.effects
  advance retrying m = probed f (init device m.calls) m.effects
  advance polling m = polled f (read_status device m.calls) m.effects

  unfoldable pub step : Monitor R → Monitor R
  unfolding advance
  step m = advance m.phase m

  unfoldable pub run : ℕ → Monitor R → Monitor R
  run zero m = m
  run (suc n) m = run n (step m)
