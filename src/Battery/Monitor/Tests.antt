-- ===== src/Battery/Monitor/Tests.antt =====
-- A charger that answers every call with the same readings, and a monitor over it.
use project_emerge_dropbot_f.Prelude.{false, ok, err, if◌then◌else◌, ltb, length}
use project_emerge_dropbot_f.Prelude.Int.{pos}
use project_emerge_dropbot_f.Float.Fixed.{fixed}
use project_emerge_dropbot_f.Battery.Charger.{Device, ChrgStat}
use project_emerge_dropbot_f.Battery.Monitor.{start, run}
use project_emerge_dropbot_f.Battery.Monitor.Requests.{IsAccounted, run-start-IsAccounted}

-- It fails a measurement once, as its tenth call.
abbrev flaky : Device (Unit {0})
flaky = record {
  command = λ cs c. ok tt;
  charge_status = λ cs. ok ChrgStat.not_charging;
  power_good = λ cs. ok false;
  word = λ cs c.
      if ltb (length cs) 10 then (if ltb 8 (length cs) then err tt else ok 3400) else ok 3400;
  tdie = λ cs. ok (pos 250);
  fault_status = λ cs. ok (record { tshut_stat = false; vbus_ovp_stat = false; tmr_stat = false });
  ntc_status = λ cs. ok 0xfe;
}

run-start-IsAccounted_example : IsAccounted fixed (run fixed flaky 4 start).effects
run-start-IsAccounted_example = run-start-IsAccounted fixed flaky 4
