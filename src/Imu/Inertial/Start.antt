-- ===== src/Imu/Inertial/Start.antt =====
-- A start that succeeds leaves the part configured, with its feature engine loaded and running.
use Prim.Native.Nat.{bit_and}
use mathlib.Core.Path.{subst}
use project_emerge_dropbot_f.Prelude.{
  ℕ, ◌<◌, ◌≤◌, ◌≡◌, refl, sym, Bool, true, false, not, some, List, [], ◌∷◌, length, get_elem?, ◌==◌,
  if◌then◌else◌, arith, ok,
}
use project_emerge_dropbot_f.Prelude.Text.{Text}
use project_emerge_dropbot_f.Imu.Bus.{BusCall, Bus, Action}
use project_emerge_dropbot_f.Imu.Bus.Rules.{IfOk, follow-IfOk, write-IfOk, read-IfOk, if-IfOk}
use project_emerge_dropbot_f.Imu.Inertial.{
  Bmi270Error, bus_error, start, init, probe, upload_config_file, register_cmd, cmd_soft_reset,
  register_pwr_conf, register_init_ctrl, register_internal_status, internal_status_message,
  internal_status_init_ok, register_pwr_ctrl, pwr_ctrl_enable_all, register_acc_conf,
  acc_conf_200hz, register_acc_range, acc_range_4g, register_gyr_conf, gyr_conf_200hz,
  register_gyr_range, gyr_range_1000dps, pwr_conf_performance,
}
use project_emerge_dropbot_f.Imu.Inertial.Part.{Part, receive, replay}
use project_emerge_dropbot_f.Imu.Inertial.Upload.{upload_config_file-image}
use project_emerge_dropbot_f.Imu.Inertial.Probe.{Answers, ProbedAt, probe-ProbedAt, probe-IfOk}

eq_refl : (n : ℕ) → (n == n) ≡ true
eq_refl n = ground arith

-- The part as the firmware means to leave it; `i` is an offset of the image.
pub record IsConfigured (config_file : Text) (i : ℕ) (p : Part) : Type 0 where
  pub running : p.registers register_init_ctrl ≡ some 1
  pub enabled : p.registers register_pwr_ctrl ≡ some pwr_ctrl_enable_all
  pub accelerometer : p.registers register_acc_conf ≡ some acc_conf_200hz
  pub accelerometer_range : p.registers register_acc_range ≡ some acc_range_4g
  pub gyroscope : p.registers register_gyr_conf ≡ some gyr_conf_200hz
  pub gyroscope_range : p.registers register_gyr_range ≡ some gyr_range_1000dps
  pub performance : p.registers register_pwr_conf ≡ some pwr_conf_performance
  pub byte : p.image i ≡ get_elem? config_file i

-- The registers that the start writes after the upload.
abbrev finish : Bool → Part → Part
finish own p =
    let next =
      λ (register value : ℕ) (q : Part). receive (if own then register ∷ value ∷ [] else []) q in
    next register_pwr_conf pwr_conf_performance (
      next register_gyr_range gyr_range_1000dps (
        next register_gyr_conf gyr_conf_200hz (
          next register_acc_range acc_range_4g (
            next register_acc_conf acc_conf_200hz
              (next register_pwr_ctrl pwr_ctrl_enable_all (next register_init_ctrl 1 p))))))

configured :
    (config_file : Text) (i : ℕ) (p : Part)
    → p.image i ≡ get_elem? config_file i
    → IsConfigured config_file i (finish true p)
configured config_file i p byte = record {
  running = refl;
  enabled = refl;
  accelerometer = refl;
  accelerometer_range = refl;
  gyroscope = refl;
  gyroscope_range = refl;
  performance = refl;
  byte = byte;
}

accepted_status :
    (status : ℕ)
    → not (bit_and status internal_status_message == internal_status_init_ok) ≡ false
    → bit_and status internal_status_message ≡ internal_status_init_ok
accepted_status status h = ground arith

module _ {E : Type 0} (bus : Bus E) where
  abbrev pub IsAccepted : ℕ → Type 0
  IsAccepted address =
      (status : ℕ) × Answers bus address register_internal_status status
      × (bit_and status internal_status_message ≡ internal_status_init_ok)

  start-IsConfigured :
      (address i : ℕ) (config_file : Text) (cs : List BusCall)
      → length config_file ≤ 8192
      → i < length config_file
      → IfOk
          (λ cs' _. IsConfigured config_file i (replay address cs') × IsAccepted address)
          (start bus address config_file cs)
  unfolding start
  start-IsConfigured address i config_file cs fits inside =
      let Goal : List BusCall → Unit {0} → Type 0 =
        λ cs' _. IsConfigured config_file i (replay address cs') × IsAccepted address in
      write-IfOk bus bus_error Goal address (register_cmd ∷ cmd_soft_reset ∷ []) _ _ (
        write-IfOk bus bus_error Goal address (register_pwr_conf ∷ 0 ∷ []) _ _ (
          write-IfOk bus bus_error Goal address (register_init_ctrl ∷ 0 ∷ []) _ _ (
            follow-IfOk (λ cs' _. (replay address cs').image i ≡ get_elem? config_file i) Goal
              (upload_config_file bus address config_file _) _
              (upload_config_file-image bus address i config_file _ fits inside)
              (λ cs' _ byte.
                let write_next = λ (register value : ℕ) (k : Action (Bmi270Error E) (Unit {0})).
                  write-IfOk bus bus_error Goal address (register ∷ value ∷ []) k in
                write_next register_init_ctrl 1 _ _ (
                  read-IfOk bus bus_error Goal address (register_internal_status ∷ []) 1 _ _
                    (λ status answered.
                      if-IfOk Goal
                        (not
                          (bit_and (status 0) internal_status_message == internal_status_init_ok))
                        _ _ _ (λ _. tt)
                        (λ accepted. write_next register_pwr_ctrl pwr_ctrl_enable_all _ _ (
                          write_next register_acc_conf acc_conf_200hz _ _ (
                            write_next register_acc_range acc_range_4g _ _ (
                              write_next register_gyr_conf gyr_conf_200hz _ _ (
                                write_next register_gyr_range gyr_range_1000dps _ _ (
                                  write_next register_pwr_conf pwr_conf_performance _ _ (
                                    subst
                                        (λ own.
                                          IsConfigured config_file i
                                            (finish own (replay address cs')))
                                        (sym (eq_refl address))
                                        (configured config_file i (replay address cs') byte),
                                    (
                                      status 0,
                                      (_, status, answered, refl),
                                      accepted_status (status 0) accepted,
                                    ),
                                  )))))))))))))

  -- Where the driver comes up with an image of at most 8192 bytes, whatever the bus answered: the
  -- address is one of the two of the part and has answered with the right identifier; the registers of
  -- the part there are as the firmware means them, with the feature engine running; at every offset of
  -- the image its memory holds the byte of the image; and the status that it answered with is "ready".
  pub init-IsConfigured :
      (i : ℕ) (config_file : Text) (cs : List BusCall)
      → length config_file ≤ 8192
      → i < length config_file
      → IfOk
          (λ cs' address.
            ProbedAt bus (ok address)
            × IsConfigured config_file i (replay address cs')
            × IsAccepted address)
          (init bus config_file cs)
  unfolding init
  init-IsConfigured i config_file cs fits inside =
      let Goal : List BusCall → ℕ → Type 0 = λ cs' address.
        ProbedAt bus (ok address)
        × IsConfigured config_file i (replay address cs')
        × IsAccepted address in
      follow-IfOk (λ _ address. ProbedAt bus (ok address)) Goal (probe bus cs) _
        (probe-IfOk bus (probe bus cs) (probe-ProbedAt bus cs))
        (λ probed address at.
          follow-IfOk
            (λ cs' _. IsConfigured config_file i (replay address cs') × IsAccepted address) Goal
            (start bus address config_file probed) _
            (start-IsConfigured address i config_file probed fits inside)
            (λ cs' _ started. (at, started.0, started.1)))
