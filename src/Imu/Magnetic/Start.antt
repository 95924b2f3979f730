-- ===== src/Imu/Magnetic/Start.antt =====
-- What a start of the magnetometer that succeeds has done.
use project_emerge_dropbot_f.Prelude.{
  ℕ, ◌≡◌, refl, ap, ◌∙◌, false, not, List, [], ◌∷◌, ◌==◌, ok, arith,
}
use project_emerge_dropbot_f.Imu.Bus.{BusCall, write, write_read, pause, Bus, Action}
use project_emerge_dropbot_f.Imu.Bus.Rules.{IfOk, write-IfOk, read-IfOk, if-IfOk, follow-IfOk}
use project_emerge_dropbot_f.Imu.Magnetic.{
  Mmc5983maError, bus_error, address, product_id, register_control_0, register_control_1,
  register_control_2, register_product_id, control_0_auto_set_reset, control_1_soft_reset,
  control_1_bandwidth_100hz, control_2_continuous_100hz, init, read_register,
}

-- The calls of a start, the latest first.
abbrev after_probe : List BusCall → List BusCall
after_probe cs =
    pause 20000
    ∷ write address (register_control_2 ∷ control_2_continuous_100hz ∷ [])
    ∷ write address (register_control_0 ∷ control_0_auto_set_reset ∷ [])
    ∷ write address (register_control_1 ∷ control_1_bandwidth_100hz ∷ [])
    ∷ pause 15000
    ∷ write address (register_control_1 ∷ control_1_soft_reset ∷ [])
    ∷ cs

abbrev pub started : List BusCall → List BusCall
started cs = after_probe (write_read address (register_product_id ∷ []) 1 ∷ cs)

same_id : (id : ℕ) → not (id == product_id) ≡ false → id ≡ product_id
same_id id h = ground arith

module _ {E : Type 0} (bus : Bus E) where
  abbrev Identified : List BusCall → ℕ → Type 0
  Identified cs id =
      (buffer : ℕ → ℕ) × (bus.on_read cs (write_read address (register_product_id ∷ []) 1)
        ≡ ok buffer)
      × (buffer 0 ≡ id)

  abbrev pub IsIdentified : List BusCall → Type 0
  IsIdentified cs = Identified cs product_id

  pub init-started :
      (cs : List BusCall) → IfOk (λ cs' _. (cs' ≡ started cs) × IsIdentified cs) (init bus cs)
  unfolding init
  init-started cs =
      let Goal : List BusCall → Unit {0} → Type 0 = λ cs' _. (cs' ≡ started cs) × IsIdentified cs in
      let Read : List BusCall → ℕ → Type 0 =
        λ cs' id. (cs' ≡ write_read address (register_product_id ∷ []) 1 ∷ cs) × Identified cs id in
      let write_next = λ (register value : ℕ) (k : Action (Mmc5983maError E) (Unit {0})).
        write-IfOk bus bus_error Goal address (register ∷ value ∷ []) k in
      follow-IfOk Read Goal (read_register bus register_product_id cs) _
        (read-IfOk bus bus_error Read address (register_product_id ∷ []) 1 _ cs
          (λ buffer answered. (refl, (buffer, answered, refl))))
        (λ now id read.
          if-IfOk Goal (not (id == product_id)) _ _ now (λ _. tt)
            (λ known. write_next register_control_1 control_1_soft_reset _ _ (
              write_next register_control_1 control_1_bandwidth_100hz _ _ (
                write_next register_control_0 control_0_auto_set_reset _ _ (
                  write_next register_control_2 control_2_continuous_100hz _ _
                    (ap after_probe read.0, (read.1.0, read.1.1, read.1.2 ∙ same_id id known)))))))
