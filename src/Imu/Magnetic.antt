-- ===== src/Imu/Magnetic.antt =====
-- src/drivers/imu/mmc5983ma.rs: the magnetometer.
pub mod Axes
pub mod Start
use Prim.Native.Nat.{bit_and, bit_or}
use project_emerge_dropbot_f.Prelude.{
  ℕ, Bool, not, List, [], ◌∷◌, ◌==◌, if◌then◌else◌, Result, ok, err,
}
use project_emerge_dropbot_f.Prelude.Int.{pos}
use project_emerge_dropbot_f.Prelude.Bits.{shl, shr}
use project_emerge_dropbot_f.Prelude.Words.{u32}
use project_emerge_dropbot_f.Float.{F32}
use project_emerge_dropbot_f.Float.Vector.{Vec3}
use project_emerge_dropbot_f.Imu.Bus.{
  BusCall, Bus, Action, follow, ◌>>=◌, ◌>>◌, pure, fail, after, write_bus, read_bus,
}

abbrev pub address : ℕ
address = 0x30

abbrev pub product_id : ℕ
product_id = 0x30

-- The registers, by the names of the source.
abbrev pub register_x_out_0 : ℕ
register_x_out_0 = 0x00

abbrev pub register_control_0 : ℕ
register_control_0 = 0x09

abbrev pub register_control_1 : ℕ
register_control_1 = 0x0A

abbrev pub register_control_2 : ℕ
register_control_2 = 0x0B

abbrev pub register_product_id : ℕ
register_product_id = 0x2F

abbrev pub control_0_auto_set_reset : ℕ
control_0_auto_set_reset = 32

abbrev pub control_1_soft_reset : ℕ
control_1_soft_reset = 128

abbrev pub control_1_bandwidth_100hz : ℕ
control_1_bandwidth_100hz = 0

abbrev pub control_2_continuous_100hz : ℕ
control_2_continuous_100hz = 205

abbrev pub burst_len : ℕ
burst_len = 7

pub data Mmc5983maError (E : Type 0) : Type 0 where
  bus_error : E → Mmc5983maError E
  wrong_product_id : ℕ → Mmc5983maError E

-- An axis from its two bytes and its two bits of the shared byte.
unfoldable pub axis : (ℕ → ℕ) → ℕ → ℕ → ℕ → ℕ
axis buffer high low shift =
    bit_or (bit_or (u32 (shl 10 (buffer high))) (u32 (shl 2 (buffer low))))
      (bit_and (shr shift (buffer 6)) 3)

module _ {R : Type 0} (f : F32 R) where
  abbrev pub zero_field_counts : R
  zero_field_counts = f.literal 131072 1

  abbrev pub counts_per_gauss : R
  counts_per_gauss = f.literal 16384 1

  abbrev pub microtesla_per_gauss : R
  microtesla_per_gauss = f.literal 100 1

  unfoldable pub microtesla : ℕ → R
  microtesla counts =
      f.mul (f.div (f.sub (f.of_int (pos counts)) zero_field_counts) counts_per_gauss)
        microtesla_per_gauss

  unfoldable pub field_of : (ℕ → ℕ) → Vec3 R
  unfolding axis microtesla
  field_of buffer = record {
    x = microtesla (axis buffer 0 1 6);
    y = microtesla (axis buffer 2 3 4);
    z = microtesla (axis buffer 4 5 2);
  }

module _ {E : Type 0} (bus : Bus E) where
  abbrev pub write_register : ℕ → ℕ → Action (Mmc5983maError E) (Unit {0})
  write_register register value = write_bus bus bus_error address (register ∷ value ∷ [])

  abbrev pub read_register : ℕ → Action (Mmc5983maError E) ℕ
  read_register register = do
    value ← read_bus bus bus_error address (register ∷ []) 1
    pure (value 0)

  unfoldable pub init : Action (Mmc5983maError E) (Unit {0})
  init = do
    id ← read_register register_product_id
    if not (id == product_id) then fail (wrong_product_id id) else (do
      write_register register_control_1 control_1_soft_reset
      after 15000
      write_register register_control_1 control_1_bandwidth_100hz
      write_register register_control_0 control_0_auto_set_reset
      write_register register_control_2 control_2_continuous_100hz
      after 20000)

  unfoldable pub read : {R : Type 0} → F32 R → Action (Mmc5983maError E) (Vec3 R)
  unfolding field_of
  read f = do
    buffer ← read_bus bus bus_error address (register_x_out_0 ∷ []) burst_len
    pure (field_of f buffer)
