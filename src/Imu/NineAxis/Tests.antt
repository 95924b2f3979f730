-- ===== src/Imu/NineAxis/Tests.antt =====
-- The start on a bus with both parts, and a measurement.
use project_emerge_dropbot_f.Prelude.{
  ℕ, ◌≡◌, refl, [], ◌∷◌, Result, ok, err, arith, ◌==◌, if◌then◌else◌,
}
use project_emerge_dropbot_f.Prelude.Text.{Text}
use project_emerge_dropbot_f.Float.Fixed.{fixed}
use project_emerge_dropbot_f.Imu.Bus.{BusCall, write_read, Bus}
use project_emerge_dropbot_f.Imu.Bus.Rules.{IfOk}
use project_emerge_dropbot_f.Imu.Inertial
use project_emerge_dropbot_f.Imu.Magnetic
use project_emerge_dropbot_f.Imu.Magnetic.{wrong_product_id}
use project_emerge_dropbot_f.Imu.Magnetic.Axes.{IsMeasurement, read-IsMeasurement}
use project_emerge_dropbot_f.Imu.NineAxis.{magnetic, init}
use project_emerge_dropbot_f.Imu.NineAxis.Start.{BothStarted, init-BothStarted}

-- The bytes that answer a read, by address and register; the measurement is of three axes.
abbrev measured : ℕ → ℕ
measured offset =
    if offset == 0
    then 128
    else if offset == 2
    then 255
    else if offset == 3
    then 255
    else if offset == 5
    then 1
    else if offset == 6
    then 116
    else 0

abbrev answers : ℕ → BusCall → Result ℕ (ℕ → ℕ)
answers id (write_read address (register ∷ []) count) =
    if address == 0x68
    then ok (λ _. if register == 0 then 0x24 else 1)
    else if address == 0x30
    then ok (λ offset. if register == 0 then measured offset else id)
    else err 5
answers id call = err 5

abbrev both : ℕ → Bus ℕ
both id = record { on_write = λ cs call. ok tt; on_read = λ cs call. answers id call }

abbrev image : Text
image = 7 ∷ 9 ∷ []

refused : (init (both 0x31) image []).1 ≡ err (magnetic (wrong_product_id 0x31))
unfolding init Inertial.init Magnetic.init
refused = refl

init-BothStarted_example : IfOk (BothStarted (both 0x30) image 1) (init (both 0x30) image [])
init-BothStarted_example = init-BothStarted (both 0x30) 1 image [] (omega arith) (omega arith)

is_measured : IsMeasurement 131073 262143 5 measured
is_measured = record {
  x_high = refl;
  x_low = refl;
  y_high = refl;
  y_low = refl;
  z_high = refl;
  z_low = refl;
  lowest = refl;
}

read-IsMeasurement_example :
    (Magnetic.read (both 0x30) fixed []).1
    ≡ ok (record {
      x = Magnetic.microtesla fixed 131073;
      y = Magnetic.microtesla fixed 262143;
      z = Magnetic.microtesla fixed 5;
    })
read-IsMeasurement_example =
    read-IsMeasurement fixed (both 0x30) 131073 262143 5 measured [] (omega arith) (omega arith)
      (omega arith) is_measured refl
