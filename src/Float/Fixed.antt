-- ===== src/Float/Fixed.antt =====
-- Thousandths as signed integers: a type of numbers for which the assumptions on `f32` hold, and on
-- which the models that use it run.
use native.Mathlib.Nat.{mul-le-mul_right}
use project_emerge_dropbot_f.Prelude.{
  ℕ, suc, ◌+◌, ◌*◌, ◌/◌, ◌≡◌, refl, Bool, true, false, min, leb, arith, if◌then◌else◌, ◌≤◌,
}
use project_emerge_dropbot_f.Prelude.Int.{
  ℤ, pos, negsuc, pos_part, neg_part, sub_ℕ, ◌+ℤ◌, ◌-ℤ◌, ltb_ℤ,
}
use project_emerge_dropbot_f.Float.{F32, IsIeee, IsUnit, IsMonotone}

abbrev leb_ℤ : ℤ → ℤ → Bool
leb_ℤ a b = leb (pos_part a + neg_part b) (pos_part b + neg_part a)

abbrev negate : ℤ → ℤ
negate a = sub_ℕ (neg_part a) (pos_part a)

unfoldable pub mul : ℤ → ℤ → ℤ
mul (pos a) (pos b) = pos (a * b / 1000)
mul (pos a) (negsuc b) = negate (pos (a * suc b / 1000))
mul (negsuc a) (pos b) = negate (pos (suc a * b / 1000))
mul (negsuc a) (negsuc b) = pos (suc a * suc b / 1000)

unfoldable pub div : ℤ → ℤ → ℤ
div (pos a) (pos b) = pos (a * 1000 / b)
div (pos a) (negsuc b) = negate (pos (a * 1000 / suc b))
div (negsuc a) (pos b) = negate (pos (suc a * 1000 / b))
div (negsuc a) (negsuc b) = pos (suc a * 1000 / suc b)

abbrev pub fixed : F32 ℤ
fixed = record {
  literal = λ n d. pos (n * 1000 / d);
  add = ◌+ℤ◌;
  sub = ◌-ℤ◌;
  mul = mul;
  div = div;
  neg = negate;
  abs = λ a. pos (pos_part a + neg_part a);
  lt = ltb_ℤ;
  le = leb_ℤ;
  eq = λ a b. if ltb_ℤ a b then false else (if ltb_ℤ b a then false else true);
  to_u8 = λ a. min (pos_part a / 1000) 255;
  of_int = λ a. sub_ℕ (pos_part a * 1000) (neg_part a * 1000);
}

product_le : (a x : ℕ) → a ≤ 1000 → a * x ≤ 1000 * x
product_le a x h = mul-le-mul_right x h

fixed-mul_le_self : (a x : ℤ) → IsUnit fixed a → IsUnit fixed x → leb_ℤ (mul a x) x ≡ true
unfolding mul
fixed-mul_le_self (pos a) (pos x) h k =
    let room = h.at_most_one in ground (arith, product_le a x (ground arith))
fixed-mul_le_self (negsuc a) x h k = let bad = h.nonneg in ground arith
fixed-mul_le_self a (negsuc x) h k = let bad = k.nonneg in ground arith

fixed-mul-IsUnit : (a x : ℤ) → IsUnit fixed a → IsUnit fixed x → IsUnit fixed (mul a x)
unfolding mul
fixed-mul-IsUnit (pos a) (pos x) h k =
    let room = h.at_most_one in
    let most = k.at_most_one in
    record { nonneg = ground arith; at_most_one = ground (arith, product_le a x (ground arith)) }
fixed-mul-IsUnit (negsuc a) x h k = let bad = h.nonneg in ground arith
fixed-mul-IsUnit a (negsuc x) h k = let bad = k.nonneg in ground arith

fixed-sub-IsUnit : (x : ℤ) → IsUnit fixed x → IsUnit fixed (pos 1000 -ℤ x)
unfolding ◌-ℤ◌
fixed-sub-IsUnit x h =
    let low = h.nonneg in
    let high = h.at_most_one in record { nonneg = ground arith; at_most_one = ground arith }

pub fixed-IsIeee : IsIeee fixed
fixed-IsIeee = record { zero_lt = refl; zero_eq = refl }

pub fixed-IsMonotone : IsMonotone fixed
unfolding mul ◌+ℤ◌ ◌-ℤ◌
fixed-IsMonotone = record {
  lt_le = λ x y h. ground arith;
  not_lt_zero = λ x h. ground arith;
  not_le_zero = λ x h. ground arith;
  le_one = λ x p h. ground arith;
  one_le_one = refl;
  zero_lt_one = refl;
  le_trans = λ a b c h k. ground arith;
  sub-IsUnit = fixed-sub-IsUnit;
  mul-IsUnit = fixed-mul-IsUnit;
  mul_le_self = fixed-mul_le_self;
  le_add = λ a x h k. (let low = k.nonneg in ground arith);
  add_mono = λ a x y h k l m. ground arith;
  add_complement = λ x h. ground arith;
  scale_mono = λ x y h k m. ground arith;
  scale_one = refl;
}
