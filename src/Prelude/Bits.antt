-- ===== src/Prelude/Bits.antt =====
-- `|` of fields that do not overlap and `&` with a mask of low ones, as arithmetic.
use Prim.Native.Nat.{bit_and, bit_or, bit_and-bitwise, bit_or-bitwise, digits}
use Prim.Native.Nat.{ℕ, zero, suc, ◌+◌, ◌*◌, ◌/◌, ◌%◌, ◌≤◌, ◌<◌, min, max}
use mathlib.Core.Path.{◌≡◌, refl, sym, ap, ◌∙◌}
use native.Mathlib.Omega.{arith}

-- The recursion on digits gives the same with any two counts that are large enough.
module _ (over : ℕ → ℕ) (f : ℕ → ℕ → ℕ) where
  any_count : (b a m n : ℕ) → a ≤ m → a ≤ n → digits over f m a b ≡ digits over f n a b
  any_count b zero zero zero low high = refl
  any_count b zero zero (suc n) low high = refl
  any_count b zero (suc m) zero low high = refl
  any_count b zero (suc m) (suc n) low high = refl
  any_count b (suc a) zero n low high = absurd (omega arith)
  any_count b (suc a) (suc m) zero low high = absurd (omega arith)
  any_count b (suc a) (suc m) (suc n) low high =
      ap (λ t. t * 2 + f (suc a % 2) (b % 2))
        (any_count (b / 2) (suc a / 2) m n (omega arith) (omega arith))

none_or : (b : ℕ) → bit_or 0 b ≡ b
none_or b = bit_or-bitwise 0 b

none_and : (b : ℕ) → bit_and 0 b ≡ 0
none_and b = bit_and-bitwise 0 b

pub or_digit : (a b : ℕ) → bit_or a b ≡ bit_or (a / 2) (b / 2) * 2 + max (a % 2) (b % 2)
or_digit zero b = omega (arith, none_or b, none_or (b / 2))
or_digit (suc a) b =
    bit_or-bitwise (suc a) b
    ∙ ap (λ t. t * 2 + max (suc a % 2) (b % 2))
        (any_count (λ b. b) max (b / 2) (suc a / 2) a (suc a / 2) (omega arith) (omega arith)
          ∙ sym (bit_or-bitwise (suc a / 2) (b / 2)))

pub and_digit : (a b : ℕ) → bit_and a b ≡ bit_and (a / 2) (b / 2) * 2 + min (a % 2) (b % 2)
and_digit zero b = omega (arith, none_and b, none_and (b / 2))
and_digit (suc a) b =
    bit_and-bitwise (suc a) b
    ∙ ap (λ t. t * 2 + min (suc a % 2) (b % 2))
        (any_count (λ b. 0) min (b / 2) (suc a / 2) a (suc a / 2) (omega arith) (omega arith)
          ∙ sym (bit_and-bitwise (suc a / 2) (b / 2)))

or_none_below : (bound a : ℕ) → a < bound → bit_or a 0 ≡ a
or_none_below zero a low = absurd (omega arith)
or_none_below (suc bound) zero low = refl
or_none_below (suc bound) (suc a) low =
    omega (arith, or_digit (suc a) 0, or_none_below bound (suc a / 2) (omega arith))

half : (n : ℕ) → 2 * n / 2 ≡ n
half n = omega arith

and_none_below : (bound a : ℕ) → a < bound → bit_and a 0 ≡ 0
and_none_below zero a low = absurd (omega arith)
and_none_below (suc bound) zero low = refl
and_none_below (suc bound) (suc a) low =
    omega (arith, and_digit (suc a) 0, and_none_below bound (suc a / 2) (omega arith))

and_none : (a : ℕ) → bit_and a 0 ≡ 0
and_none a = and_none_below (suc a) a (omega arith)

-- `x << k`, without a width.
abbrev pub shl : ℕ → ℕ → ℕ
shl zero x = x
shl (suc k) x = 2 * shl k x

abbrev pub shr : ℕ → ℕ → ℕ
shr zero x = x
shr (suc k) x = shr k x / 2

pub or_shl : (k x low : ℕ) → low < shl k 1 → bit_or (shl k x) low ≡ shl k x + low
or_shl zero x zero h = or_none_below (suc x) x (omega arith) ∙ omega arith
or_shl zero x (suc low) h = absurd (omega arith)
or_shl (suc k) x low h =
    or_digit (2 * shl k x) low
    ∙ omega
        (arith, ap (λ t. bit_or t (low / 2)) (half (shl k x)), or_shl k x (low / 2) (omega arith))

pub and_three : (a : ℕ) → bit_and a 3 ≡ a % 4
and_three a = omega (arith, and_digit a 3, and_digit (a / 2) 1, and_none (a / 2 / 2))

pub and_fifteen : (a : ℕ) → bit_and a 15 ≡ a % 16
and_fifteen a = omega (arith, and_digit a 15, and_digit (a / 2) 7, and_three (a / 2 / 2))

pub and_byte : (a : ℕ) → bit_and a 255 ≡ a % 256
and_byte a = omega (
  arith,
  and_digit a 255,
  and_digit (a / 2) 127,
  and_digit (a / 2 / 2) 63,
  and_digit (a / 2 / 2 / 2) 31,
  and_fifteen (a / 2 / 2 / 2 / 2),
)
