-- ===== src/Imu/HardIron/Sectors.antt =====
-- Sets of sectors as words: what a vote adds.
use Prim.Native.Nat.{bit_or}
use project_emerge_dropbot_f.Prelude.{
  ℕ, zero, suc, ◌+◌, ◌-◌, ◌*◌, ◌/◌, ◌%◌, ◌≤◌, ◌<◌, ◌≡◌, ap, ◌∙◌, arith, min, max,
}
use project_emerge_dropbot_f.Prelude.Bits.{shl, or_digit}
use project_emerge_dropbot_f.Imu.HardIron.{count_ones, vote, hard_iron_sectors}

-- The digits of a union.
or_half : (a b : ℕ) → bit_or a b / 2 ≡ bit_or (a / 2) (b / 2)
or_half a b = ap (λ t. t / 2) (or_digit a b) ∙ omega arith

or_last : (a b : ℕ) → bit_or a b % 2 ≡ max (a % 2) (b % 2)
or_last a b = ap (λ t. t % 2) (or_digit a b) ∙ omega arith

pub count_ones-bit_or : (width a b : ℕ) → count_ones width a ≤ count_ones width (bit_or a b)
unfolding count_ones
count_ones-bit_or zero a b = omega arith
count_ones-bit_or (suc width) a b = omega (
  arith,
  ap (count_ones width) (or_half a b),
  or_last a b,
  count_ones-bit_or width (a / 2) (b / 2),
)

count_ones-none : (width a : ℕ) → count_ones width (bit_or a 0) ≤ count_ones width a
unfolding count_ones
count_ones-none zero a = omega arith
count_ones-none (suc width) a =
    omega (arith, ap (count_ones width) (or_half a 0), or_last a 0, count_ones-none width (a / 2))

one_bit : (width k a : ℕ) → count_ones width (bit_or a (shl k 1)) ≤ count_ones width a + 1
unfolding count_ones
one_bit zero k a = omega arith
one_bit (suc width) zero a =
    omega (arith, ap (count_ones width) (or_half a 1), or_last a 1, count_ones-none width (a / 2))
one_bit (suc width) (suc k) a = omega (
  arith,
  ap (count_ones width) (or_half a (shl (suc k) 1) ∙ ap (bit_or (a / 2)) (twice (shl k 1))),
  or_last a (shl (suc k) 1),
  one_bit width k (a / 2),
)
  where
    twice : (n : ℕ) → 2 * n / 2 ≡ n
    twice n = omega arith

pub count_ones-vote :
    (sectors sector : ℕ) → count_ones 16 (vote sectors sector) ≤ count_ones 16 sectors + 1
unfolding vote
count_ones-vote sectors sector = one_bit 16 (min sector (hard_iron_sectors - 1)) sectors

or_below : (k a b : ℕ) → a < shl k 1 → b < shl k 1 → bit_or a b < shl k 1
or_below zero zero zero h i = omega arith
or_below zero (suc a) b h i = absurd (omega arith)
or_below zero a (suc b) h i = absurd (omega arith)
or_below (suc k) a b h i =
    omega (arith, or_digit a b, or_below k (a / 2) (b / 2) (omega arith) (omega arith))

shl_below : (n k : ℕ) → k < n → shl k 1 < shl n 1
shl_below zero k h = absurd (omega arith)
shl_below (suc zero) zero h = omega arith
shl_below (suc (suc n)) zero h = omega (arith, shl_below (suc n) zero (omega arith))
shl_below (suc n) (suc k) h = omega (arith, shl_below n k (omega arith))

pub vote_bound : (sectors sector : ℕ) → sectors < 4096 → vote sectors sector < 4096
unfolding vote
vote_bound sectors sector h =
    or_below 12 sectors (shl (min sector (hard_iron_sectors - 1)) 1) h
      (shl_below 12 (min sector (hard_iron_sectors - 1)) (omega arith))

-- A word below 2 ^ k has at most k ones.
pub count_ones_bound : (width k n : ℕ) → n < shl k 1 → count_ones width n ≤ k
unfolding count_ones
count_ones_bound zero k n h = omega arith
count_ones_bound (suc width) zero n h =
    omega (arith, count_ones_bound width zero (n / 2) (omega arith))
count_ones_bound (suc width) (suc k) n h =
    omega (arith, count_ones_bound width k (n / 2) (omega arith))
