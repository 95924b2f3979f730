-- ===== src/Imu/Magnetic/Axes.antt =====
-- A measurement is read back from its seven bytes.

use project_emerge_dropbot_f.Prelude.{
  ℕ, ◌+◌, ◌*◌, ◌/◌, ◌%◌, ◌<◌, ◌≡◌, refl, ◌∙◌, List, [], ◌∷◌, ok, arith,
}
use project_emerge_dropbot_f.Prelude.Bits.{shl, shr, or_shl, and_three}
use project_emerge_dropbot_f.Prelude.Words.{u32, IsU8}
use project_emerge_dropbot_f.Float.{F32}
use project_emerge_dropbot_f.Imu.Bus.{BusCall, write_read, Bus}
use project_emerge_dropbot_f.Imu.Magnetic.{
  address, register_x_out_0, burst_len, axis, microtesla, field_of, read,
}

-- The layout of the datasheet: bits 17 to 10, bits 9 to 2, and the lowest two of all axes together.
pub record IsMeasurement (x y z : ℕ) (buffer : ℕ → ℕ) : Type 0 where
  pub x_high : buffer 0 ≡ x / 1024
  pub x_low : buffer 1 ≡ x / 4 % 256
  pub y_high : buffer 2 ≡ y / 1024
  pub y_low : buffer 3 ≡ y / 4 % 256
  pub z_high : buffer 4 ≡ z / 1024
  pub z_low : buffer 5 ≡ z / 4 % 256
  pub lowest : buffer 6 ≡ x % 4 * 64 + y % 4 * 16 + z % 4 * 4

-- The fields of an axis do not overlap.
axis_sum :
    (buffer : ℕ → ℕ) (high low shift : ℕ)
    → IsU8 (buffer high)
    → IsU8 (buffer low)
    → axis buffer high low shift ≡ buffer high * 1024 + buffer low * 4 + shr shift (buffer 6) % 4
unfolding axis
axis_sum buffer high low shift h l =
    let four = shl 2 (buffer high * 256 + buffer low) in
    let top = shl 10 (buffer high) in
    let wide : u32 (shl 10 (buffer high)) ≡ shl 10 (buffer high) = omega arith in
    let narrow : u32 (shl 2 (buffer low)) ≡ shl 2 (buffer low) = omega arith in
    let joined : shl 10 (buffer high) + shl 2 (buffer low)
        ≡ shl 2 (buffer high * 256 + buffer low) =
      omega arith in
    rw
      (
        wide,
        narrow,
        or_shl 10 (buffer high) (shl 2 (buffer low)) (omega arith),
        joined,
        and_three (shr shift (buffer 6)),
        or_shl 2 (buffer high * 256 + buffer low) (shr shift (buffer 6) % 4) (omega arith),
      )
      (omega arith)

axis-value :
    (buffer : ℕ → ℕ) (high low shift value : ℕ)
    → value < 262144
    → buffer high ≡ value / 1024
    → buffer low ≡ value / 4 % 256
    → shr shift (buffer 6) % 4 ≡ value % 4
    → axis buffer high low shift ≡ value
axis-value buffer high low shift value small h l lowest =
    axis_sum buffer high low shift (omega arith) (omega arith) ∙ omega arith

module _ {R E : Type 0} (f : F32 R) (bus : Bus E) where
  -- Where the part answers with a measurement of three numbers of eighteen bits, laid out as in its
  -- datasheet, the driver gives those numbers in microtesla, each on its axis.
  pub read-IsMeasurement :
      (x y z : ℕ) (buffer : ℕ → ℕ) (cs : List BusCall)
      → x < 262144
      → y < 262144
      → z < 262144
      → IsMeasurement x y z buffer
      → bus.on_read cs (write_read address (register_x_out_0 ∷ []) burst_len) ≡ ok buffer
      → (read bus f cs).1
        ≡ ok (record { x = microtesla f x; y = microtesla f y; z = microtesla f z })
  unfolding read field_of
  read-IsMeasurement x y z buffer cs small_x small_y small_z m answered =
      rw
        (
          answered,
          axis-value buffer 0 1 6 x small_x m.x_high m.x_low (omega (arith, m.lowest)),
          axis-value buffer 2 3 4 y small_y m.y_high m.y_low (omega (arith, m.lowest)),
          axis-value buffer 4 5 2 z small_z m.z_high m.z_low (omega (arith, m.lowest)),
        )
        refl
