-- ===== src/Imu/Bus.antt =====
-- The I2C bus of the sensors, which is the crate `embedded-hal-async` and is not part of this
-- repository: each transaction and each pause is recorded, the latest first, and a transaction is
-- answered by an arbitrary function of those before it. What a read gives is a byte at each offset.
pub mod Rules
use project_emerge_dropbot_f.Prelude.{
  ℕ, ◌≡◌, Option, none, some, List, [], ◌∷◌, Result, ok, err, map_err,
}
use project_emerge_dropbot_f.Prelude.Text.{Text}

pub data BusCall : Type 0 where
  -- The address and the bytes; for a read also how many are read.
  write : ℕ → Text → BusCall
  write_read : ℕ → Text → ℕ → BusCall
  -- A timer, in microseconds.
  pause : ℕ → BusCall

pub record Bus (E : Type 0) : Type 0 where
  pub on_write : List BusCall → BusCall → Result E (Unit {0})
  pub on_read : List BusCall → BusCall → Result E (ℕ → ℕ)

-- Code with an error of type X over the calls made so far.
abbrev pub Action : Type 0 → Type 0 → Type 0
Action X A = List BusCall → List BusCall × Result X A

abbrev pub follow :
    {X A B : Type 0} → List BusCall × Result X A → (A → Action X B) → List BusCall × Result X B
follow (cs, ok a) k = k a cs
follow (cs, err e) k = (cs, err e)

infixl 5 ◌>>=◌ ◌>>◌
abbrev pub ◌>>=◌ : {X A B : Type 0} → Action X A → (A → Action X B) → Action X B
◌>>=◌ m k cs = follow (m cs) k

abbrev pub ◌>>◌ : {X B : Type 0} → Action X (Unit {0}) → Action X B → Action X B
m >> k = m >>= λ _. k

abbrev pub pure : {X A : Type 0} → A → Action X A
pure a cs = (cs, ok a)

abbrev pub fail : {X A : Type 0} → X → Action X A
fail e cs = (cs, err e)

abbrev pub after : {X : Type 0} → ℕ → Action X (Unit {0})
after micros cs = (pause micros ∷ cs, ok tt)

-- A transaction, its error wrapped by the driver.
abbrev pub write_bus : {E X : Type 0} → Bus E → (E → X) → ℕ → Text → Action X (Unit {0})
write_bus bus wrap address bytes cs =
    (write address bytes ∷ cs, map_err wrap (bus.on_write cs (write address bytes)))

abbrev pub read_bus : {E X : Type 0} → Bus E → (E → X) → ℕ → Text → ℕ → Action X (ℕ → ℕ)
read_bus bus wrap address bytes count cs = (
  write_read address bytes count ∷ cs,
  map_err wrap (bus.on_read cs (write_read address bytes count)),
)

-- A part of the code whose errors are of another type.
abbrev pub lift : {X Y A : Type 0} → (X → Y) → Action X A → Action Y A
lift wrap m cs = ((m cs).0, map_err wrap (m cs).1)
