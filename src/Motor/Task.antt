-- ===== src/Motor/Task.antt =====
-- src/tasks/motor_controller.rs: the task that owns the driver. It waits at three places: at the
-- top of its loop (the 10 ms pause, then a look at the update status), in the selection of a
-- command, a configuration or the three-second timeout, and while an update runs. A wake-up ends one
-- of these waits; one that the task does not wait for leaves it as it is. Log lines are left out.
pub mod Safety
use project_emerge_dropbot_f.Prelude.{
  Bool, true, false, Option, none, some, List, [], ◌∷◌, if◌then◌else◌, Result, ok, err,
}
use project_emerge_dropbot_f.Float.{F32}
use project_emerge_dropbot_f.Ota.Status.{OtaStatus, is_active}
use project_emerge_dropbot_f.Motor.Driver.{
  Pins, Drv8833Error, Driver, MotorConfig, MotorStatus, Method, follow, ◌>>=◌, ◌>>◌, new,
  default_config, set_config, set_speed, stop, sleep, get_status,
}

-- src/data/commands.rs
pub data DriveCommand (R : Type 0) : Type 0 where
  move : R → R → DriveCommand R
  stop_command : DriveCommand R

-- src/data/configurations.rs
pub record MotorsConfiguration (R : Type 0) : Type 0 where
  pub ema_filter_alpha : Option R
  pub min_duty_cycle : R

-- src/data/telemetry.rs
pub data MotorTelemetry (R : Type 0) : Type 0 where
  stopped : MotorTelemetry R
  motoring : R → R → MotorTelemetry R

pub data Phase : Type 0 where
  at_top selecting held : Phase

-- The task, with the telemetry that it offered to its channel, the latest first.
pub record Controller (R : Type 0) : Type 0 where
  pub driver : Driver R
  pub phase : Phase
  pub telemetry : List (MotorTelemetry R)

pub data Wake (R : Type 0) : Type 0 where
  -- The pause is over; what `try_changed` finds of the update status.
  resumed : Option OtaStatus → Wake R
  command : DriveCommand R → Wake R
  configuration : MotorsConfiguration R → Wake R
  timeout : Wake R
  ota_changed : OtaStatus → Wake R

module _ {R P D : Type 0} (f : F32 R) (pins : Pins P D) where
  unfoldable pub start : Controller R
  unfolding new default_config
  start = record { driver = new f (default_config f); phase = at_top; telemetry = [] }

  -- `motor_driver.stop().and_then(|()| motor_driver.sleep())`
  unfoldable pub disable : Method R P D (Unit {0})
  disable = do stop f pins; sleep f pins

  unfoldable pub look : Option OtaStatus → Controller R → Controller R
  unfolding disable
  look none c = record c { phase = selecting }
  look (some status) c =
      if is_active status
      then record c { driver = (disable c.driver).0; phase = held }
      else record c { phase = selecting }

  unfoldable pub obey : DriveCommand R → Driver R → Driver R
  obey (move left right) d = (set_speed f pins left right d).0
  obey stop_command d = (stop f pins d).0

  unfoldable pub configure : MotorsConfiguration R → Driver R → Driver R
  configure config d =
      let motor_config : MotorConfig R = record {
        ema_filter_alpha = config.ema_filter_alpha;
        min_duty_cycle = config.min_duty_cycle;
      } in
      (set_config f pins motor_config d).0

  -- What the status of the driver adds to the telemetry; a driver that fails to tell adds nothing.
  abbrev pub told :
      Result (Drv8833Error P D) (MotorStatus R) → List (MotorTelemetry R) → List (MotorTelemetry R)
  told (ok MotorStatus.stopped) ts = MotorTelemetry.stopped ∷ ts
  told (ok (MotorStatus.motoring left right)) ts = MotorTelemetry.motoring left right ∷ ts
  told (err e) ts = ts

  -- The end of a round: the status is reported, and the pause begins.
  unfoldable pub report : Driver R → Controller R → Controller R
  report d c = record c {
    driver = d;
    phase = at_top;
    telemetry = told (get_status f pins d) c.telemetry;
  }

  -- One wake-up, by the place that the task waits at.
  unfoldable pub wake : Phase → Wake R → Controller R → Controller R
  unfolding look obey configure report
  wake at_top (resumed seen) c = look seen c
  wake selecting (command order) c = report (obey order c.driver) c
  wake selecting (configuration config) c = report (configure config c.driver) c
  wake selecting timeout c = report (stop f pins c.driver).0 c
  wake held (ota_changed status) c = if is_active status then c else record c { phase = selecting }
  wake _ _ c = c

  unfoldable pub step : Wake R → Controller R → Controller R
  unfolding wake
  step w c = wake c.phase w c
