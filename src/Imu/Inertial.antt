-- ===== src/Imu/Inertial.antt =====
-- src/drivers/imu/bmi270.rs: the BMI270. The image of its feature engine is a file of the vendor: an
-- arbitrary list of bytes.
pub mod Words
pub mod Part
pub mod Upload
pub mod Probe
pub mod Start
mod Tests
use Prim.Native.Nat.{bit_and}
use project_emerge_dropbot_f.Prelude.{
  ℕ, zero, suc, ◌+◌, ◌-◌, ◌*◌, ◌/◌, ◌%◌, Bool, true, false, not, Option, none, some, List, [], ◌∷◌,
  length, take, drop, ltb, ◌==◌, if◌then◌else◌, Result, ok, err,
}
use project_emerge_dropbot_f.Prelude.Int.{ℤ, pos, negsuc}
use project_emerge_dropbot_f.Prelude.Text.{Text}
use project_emerge_dropbot_f.Prelude.Words.{u8, u16}
use project_emerge_dropbot_f.Float.{F32}
use project_emerge_dropbot_f.Float.Vector.{Vec3}
use project_emerge_dropbot_f.Imu.Bus.{
  BusCall, write_read, Bus, Action, follow, ◌>>=◌, ◌>>◌, pure, fail, after, write_bus, read_bus,
}

abbrev pub address_primary : ℕ
address_primary = 0x68

abbrev pub address_secondary : ℕ
address_secondary = 0x69

abbrev pub chip_id : ℕ
chip_id = 0x24

-- The registers, by the names of the source.
abbrev pub register_chip_id : ℕ
register_chip_id = 0x00

abbrev pub register_data_8 : ℕ
register_data_8 = 0x0C

abbrev pub register_internal_status : ℕ
register_internal_status = 0x21

abbrev pub register_acc_conf : ℕ
register_acc_conf = 0x40

abbrev pub register_acc_range : ℕ
register_acc_range = 0x41

abbrev pub register_gyr_conf : ℕ
register_gyr_conf = 0x42

abbrev pub register_gyr_range : ℕ
register_gyr_range = 0x43

abbrev pub register_init_ctrl : ℕ
register_init_ctrl = 0x59

abbrev pub register_init_addr_0 : ℕ
register_init_addr_0 = 0x5B

abbrev pub register_init_addr_1 : ℕ
register_init_addr_1 = 0x5C

abbrev pub register_init_data : ℕ
register_init_data = 0x5E

abbrev pub register_pwr_conf : ℕ
register_pwr_conf = 0x7C

abbrev pub register_pwr_ctrl : ℕ
register_pwr_ctrl = 0x7D

abbrev pub register_cmd : ℕ
register_cmd = 0x7E

abbrev pub cmd_soft_reset : ℕ
cmd_soft_reset = 0xB6

abbrev pub internal_status_message : ℕ
internal_status_message = 15

abbrev pub internal_status_init_ok : ℕ
internal_status_init_ok = 1

abbrev pub pwr_ctrl_enable_all : ℕ
pwr_ctrl_enable_all = 14

abbrev pub pwr_conf_performance : ℕ
pwr_conf_performance = 2

abbrev pub acc_conf_200hz : ℕ
acc_conf_200hz = 137

abbrev pub gyr_conf_200hz : ℕ
gyr_conf_200hz = 201

abbrev pub acc_range_4g : ℕ
acc_range_4g = 1

abbrev pub gyr_range_1000dps : ℕ
gyr_range_1000dps = 1

abbrev pub config_chunk : ℕ
config_chunk = 128

abbrev pub burst_len : ℕ
burst_len = 24

abbrev pub temperature_offset : ℕ
temperature_offset = 22

pub data Bmi270Error (E : Type 0) : Type 0 where
  bus_error : E → Bmi270Error E
  not_found : Bmi270Error E
  wrong_chip_id init_failed : ℕ → Bmi270Error E

pub record Bmi270Sample (R : Type 0) : Type 0 where
  pub accelerometer : Vec3 R
  pub gyroscope : Vec3 R
  pub temperature : Option R

-- `i16::from_le_bytes` of two bytes of a burst.
unfoldable pub i16_from_le_bytes : ℕ → ℕ → ℤ
i16_from_le_bytes low high =
    let bits = low + 256 * high in if ltb bits 32768 then pos bits else negsuc (65535 - bits)

unfoldable pub word : (ℕ → ℕ) → ℕ → ℤ
unfolding i16_from_le_bytes
word buffer offset = i16_from_le_bytes (buffer offset) (buffer (offset + 1))

-- Whether a temperature is the code for no reading, -32768.
unfoldable pub is_invalid : ℤ → Bool
is_invalid (pos n) = false
is_invalid (negsuc n) = n == 32767

module _ {R : Type 0} (f : F32 R) where
  abbrev pub accel_scale : R
  accel_scale = f.div (f.mul (f.literal 4 1) (f.literal 980665 100000)) (f.literal 32768 1)

  abbrev pub gyro_scale : R
  gyro_scale = f.div (f.literal 1000 1) (f.literal 32768 1)

  unfoldable pub axes : R → (ℕ → ℕ) → ℕ → Vec3 R
  unfolding word
  axes scale buffer offset = record {
    x = f.mul (f.of_int (word buffer offset)) scale;
    y = f.mul (f.of_int (word buffer (offset + 2))) scale;
    z = f.mul (f.of_int (word buffer (offset + 4))) scale;
  }

  unfoldable pub temperature_of : ℤ → Option R
  unfolding is_invalid
  temperature_of raw =
      if is_invalid raw
      then none
      else some (f.add (f.div (f.of_int raw) (f.literal 512 1)) (f.literal 23 1))

  unfoldable pub decode : (ℕ → ℕ) → Bmi270Sample R
  unfolding axes temperature_of
  decode buffer = record {
    accelerometer = axes accel_scale buffer 0;
    gyroscope = axes gyro_scale buffer 6;
    temperature = temperature_of (word buffer temperature_offset);
  }

-- What the answer at one address means: the part, or the identifier that was seen last.
pub data Probed : Type 0 where
  found : Probed
  other : Option ℕ → Probed

unfoldable pub identify : {E : Type 0} → Option ℕ → Result E (ℕ → ℕ) → Probed
identify last_id (err e) = other last_id
identify last_id (ok id) = if id 0 == chip_id then found else other (some (id 0))

unfoldable pub not_probed : {E : Type 0} → Option ℕ → Bmi270Error E
not_probed none = not_found
not_probed (some id) = wrong_chip_id id

module _ {E : Type 0} (bus : Bus E) where
  -- The loop over the addresses, with the identifier that was seen last.
  unfoldable pub probe_from : List ℕ → Option ℕ → Action (Bmi270Error E) ℕ
  unfolding identify not_probed
  probe_from [] last_id cs = (cs, err (not_probed last_id))
  probe_from (address ∷ addresses) last_id cs =
      let asked = write_read address (register_chip_id ∷ []) 1 in
      elim (identify last_id (bus.on_read cs asked)) [
        | found ↦ (asked ∷ cs, ok address)
        | other seen ↦ probe_from addresses seen (asked ∷ cs)
      ]

  unfoldable pub probe : Action (Bmi270Error E) ℕ
  unfolding probe_from
  probe = probe_from (address_primary ∷ address_secondary ∷ []) none

  module _ (address : ℕ) where
    abbrev pub write_register : ℕ → ℕ → Action (Bmi270Error E) (Unit {0})
    write_register register value = write_bus bus bus_error address (register ∷ value ∷ [])

    abbrev pub read_registers : ℕ → ℕ → Action (Bmi270Error E) (ℕ → ℕ)
    read_registers register count = read_bus bus bus_error address (register ∷ []) count

    -- The loop over the chunks from an index on; the fuel is the length of what is left, or more.
    unfoldable pub upload_chunks : ℕ → ℕ → Text → Action (Bmi270Error E) (Unit {0})
    upload_chunks fuel index [] = pure tt
    upload_chunks zero index (b ∷ bs) = pure tt
    upload_chunks (suc fuel) index (b ∷ bs) = do
      let word_address = u16 (index * config_chunk / 2)
      write_register register_init_addr_0 (u8 (bit_and word_address 15))
      write_register register_init_addr_1 (u8 (bit_and (word_address / 16) 255))
      write_bus bus bus_error address (register_init_data ∷ take config_chunk (b ∷ bs))
      upload_chunks fuel (index + 1) (drop config_chunk (b ∷ bs))

    unfoldable pub upload_config_file : Text → Action (Bmi270Error E) (Unit {0})
    unfolding upload_chunks
    upload_config_file config_file = upload_chunks (length config_file) 0 config_file

    -- After the probe.
    unfoldable pub start : Text → Action (Bmi270Error E) (Unit {0})
    unfolding upload_config_file
    start config_file = do
      write_register register_cmd cmd_soft_reset
      after 5000
      write_register register_pwr_conf 0
      after 500
      write_register register_init_ctrl 0
      upload_config_file config_file
      write_register register_init_ctrl 1
      after 150000
      status ← read_registers register_internal_status 1
      if not (bit_and (status 0) internal_status_message == internal_status_init_ok)
          then fail (init_failed (status 0))
          else (do
            write_register register_pwr_ctrl pwr_ctrl_enable_all
            write_register register_acc_conf acc_conf_200hz
            write_register register_acc_range acc_range_4g
            write_register register_gyr_conf gyr_conf_200hz
            write_register register_gyr_range gyr_range_1000dps
            write_register register_pwr_conf pwr_conf_performance
            after 50000)

    unfoldable pub read : {R : Type 0} → F32 R → Action (Bmi270Error E) (Bmi270Sample R)
    unfolding decode
    read f = do buffer ← read_registers register_data_8 burst_len; pure (decode f buffer)

  -- The address that the probe settles is the driver's from then on.
  unfoldable pub init : Text → Action (Bmi270Error E) ℕ
  unfolding probe start
  init config_file = do address ← probe; start address config_file; pure address
