-- ===== src/Imu/Inertial/Words.antt =====
-- The signed words of a burst.
use project_emerge_dropbot_f.Prelude.{ℕ, ◌+◌, ◌-◌, ◌*◌, ◌/◌, ◌%◌, ◌<◌, ◌≡◌, ◌↔◌, ap, none, arith}
use project_emerge_dropbot_f.Prelude.Int.{ℤ, pos, negsuc}
use project_emerge_dropbot_f.Prelude.Words.{IsU8}
use project_emerge_dropbot_f.Float.{F32}
use project_emerge_dropbot_f.Imu.Inertial.{
  i16_from_le_bytes, word, is_invalid, temperature_of, decode,
}

-- A signed number of sixteen bits, and its two's complement.
abbrev pub IsI16 : ℤ → Type 0
IsI16 (pos n) = n < 32768
IsI16 (negsuc n) = n < 32768

abbrev pub i16_bits : ℤ → ℕ
i16_bits (pos n) = n
i16_bits (negsuc n) = 65535 - n

bits_back : (low high n : ℕ) → low ≡ n % 256 → high ≡ n / 256 → low + 256 * high ≡ n
bits_back low high n l h = omega arith

-- A signed number of sixteen bits is read back from the two bytes of its two's complement, the low
-- byte first, wherever they stand in the burst.
pub word-i16_bits :
    (z : ℤ) (buffer : ℕ → ℕ) (offset : ℕ)
    → IsI16 z
    → buffer offset ≡ i16_bits z % 256
    → buffer (offset + 1) ≡ i16_bits z / 256
    → word buffer offset ≡ z
unfolding word i16_from_le_bytes
word-i16_bits (pos n) buffer offset small low high =
    rw (bits_back (buffer offset) (buffer (offset + 1)) n low high) (ground arith)
word-i16_bits (negsuc n) buffer offset small low high =
    rw (bits_back (buffer offset) (buffer (offset + 1)) (65535 - n) low high)
      (ground (arith, ap negsuc (back n small)))
  where
    back : (n : ℕ) → n < 32768 → 65535 - (65535 - n) ≡ n
    back n h = omega arith

module _ {R : Type 0} (f : F32 R) where
  -- A decoded sample has no temperature exactly where the burst holds the code for none, 0x8000.
  pub decode-none_iff :
      (buffer : ℕ → ℕ)
      → IsU8 (buffer 22)
      → IsU8 (buffer 23)
      → ((decode f buffer).temperature ≡ none) ↔ ((buffer 22 ≡ 0) × (buffer 23 ≡ 128))
  unfolding decode temperature_of is_invalid word i16_from_le_bytes
  decode-none_iff buffer low high = ground arith
