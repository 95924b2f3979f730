-- ===== src/Prelude/Words.antt =====
-- Machine words as native numbers: arithmetic wraps at the width that a name states. `-` on ℕ stops
-- at 0, so a subtraction adds the modulus first.
use Prim.Native.Nat.{ℕ, ◌+◌, ◌-◌, ◌%◌, ◌<◌}

abbrev pub u32 : ℕ → ℕ
u32 n = n % 4294967296

abbrev pub IsU32 : ℕ → Type 0
IsU32 n = n < 4294967296

abbrev pub u8 : ℕ → ℕ
u8 n = n % 256

abbrev pub IsU8 : ℕ → Type 0
IsU8 n = n < 256

abbrev pub sub_u8 : ℕ → ℕ → ℕ
sub_u8 a b = u8 (a + 256 - b)

abbrev pub u64 : ℕ → ℕ
u64 n = n % 18446744073709551616

abbrev pub u16 : ℕ → ℕ
u16 n = n % 65536

abbrev pub IsU16 : ℕ → Type 0
IsU16 n = n < 65536

abbrev pub sub_u16 : ℕ → ℕ → ℕ
sub_u16 a b = u16 (a + 65536 - b)
