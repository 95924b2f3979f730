-- ===== src/Imu/Inertial/Part.antt =====
-- The BMI270 as its datasheet has it, as far as the firmware writes to it: registers, a reset, and the
-- memory of the feature engine behind a pointer that counts words.
use project_emerge_dropbot_f.Prelude.{
  ℕ, ◌+◌, ◌-◌, ◌*◌, ◌≡◌, Bool, true, false, Option, none, some, List, [], ◌∷◌, get_elem?, ltb, ◌==◌,
  if◌then◌else◌, arith,
}
use project_emerge_dropbot_f.Prelude.Text.{Text}
use project_emerge_dropbot_f.Imu.Bus.{BusCall, write, write_read, pause}
use project_emerge_dropbot_f.Imu.Inertial.{
  register_init_addr_0, register_init_addr_1, register_init_data, register_cmd, cmd_soft_reset,
}

-- `none` is a register or a byte of the memory as the power-on leaves it.
pub record Part : Type 0 where
  pub registers : ℕ → Option ℕ
  pub image : ℕ → Option ℕ

abbrev pub blank : Part
blank = record { registers = λ r. none; image = λ i. none }

abbrev pub or_old : Option ℕ → Option ℕ → Option ℕ
or_old none old = old
or_old (some b) old = some b

-- Bytes in a memory from an offset on.
abbrev pub store : ℕ → Text → (ℕ → Option ℕ) → ℕ → Option ℕ
store offset bytes memory i =
    if ltb i offset then memory i else or_old (get_elem? bytes (i - offset)) (memory i)

abbrev pub or_zero : Option ℕ → ℕ
or_zero none = 0
or_zero (some b) = b

-- The pointer: the low four bits of a word's address in one register, the next eight in another.
abbrev pub pointer : (ℕ → Option ℕ) → ℕ
pointer registers =
    2 * (16 * or_zero (registers register_init_addr_1) + or_zero (registers register_init_addr_0))

abbrev pub reset_by : Bool → Part → Part
reset_by true p = blank
reset_by false p = p

abbrev pub receive : Text → Part → Part
receive [] p = p
receive (register ∷ []) p = p
receive (register ∷ value ∷ bytes) p =
    if register == register_init_data
    then record p { image = store (pointer p.registers) (value ∷ bytes) p.image }
    else if register == register_cmd
    then reset_by (value == cmd_soft_reset) p
    else record p { registers = λ r. if r == register then some value else p.registers r }

-- The part at an address after the calls, of which the latest stands first.
abbrev pub replay : ℕ → List BusCall → Part
replay address [] = blank
replay address (write to bytes ∷ cs) =
    receive (if to == address then bytes else []) (replay address cs)
replay address (write_read to bytes count ∷ cs) = replay address cs
replay address (pause micros ∷ cs) = replay address cs

pub replay-write :
    (address : ℕ) (bytes : Text) (cs : List BusCall)
    → replay address (write address bytes ∷ cs) ≡ receive bytes (replay address cs)
replay-write address bytes cs = ground arith
