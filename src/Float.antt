-- ===== src/Float.antt =====
-- Single-precision numbers. The processor's `f32` is taken as an interface: the operations that the
-- program uses, on a type that the model leaves open. A proof may assume of them what IEEE 754
-- promises, and names what it assumes: `IsIeee` for the comparisons with zero, `IsMonotone` for the
-- order and, on the numbers from zero to one, for the rounding of sums and products. `Fixed` shows that
-- both can hold.

pub mod Fixed
pub mod Vector
use project_emerge_dropbot_f.Prelude.{
  ℕ, ◌≤◌, ◌≡◌, Bool, true, false, ◌&&◌, Option, none, some, if◌then◌else◌,
}
use project_emerge_dropbot_f.Prelude.Int.{ℤ}

pub record F32 (R : Type 0) : Type 0 where
  -- The number nearest to a quotient, for the literals of the source: `literal 3 10` is 0.3.
  pub literal : ℕ → ℕ → R
  pub add : R → R → R
  pub sub : R → R → R
  pub mul : R → R → R
  pub div : R → R → R
  pub neg : R → R
  pub abs : R → R
  pub lt : R → R → Bool
  pub le : R → R → Bool
  pub eq : R → R → Bool
  -- `as u8`, which saturates, and the exact conversions from integers.
  pub to_u8 : R → ℕ
  pub of_int : ℤ → R

module _ {R : Type 0} (f : F32 R) where
  abbrev pub zero : R
  zero = f.literal 0 1

  abbrev pub one : R
  one = f.literal 1 1

  abbrev pub hundred : R
  hundred = f.literal 100 1

  -- `f32::clamp` of the standard library.
  unfoldable pub clamp : R → R → R → R
  clamp x low high =
      let raised = if f.lt x low then low else x in if f.lt high raised then high else raised

  -- Zero is neither below nor different from itself.
  pub record IsIeee : Type 0 where
    pub zero_lt : f.lt zero zero ≡ false
    pub zero_eq : f.eq zero zero ≡ true

  -- A number from zero to one; a test that is true has no NaN on either side.
  pub record IsUnit (x : R) : Type 0 where
    pub nonneg : f.le zero x ≡ true
    pub at_most_one : f.le x one ≡ true

  -- The order of IEEE 754, which no NaN takes part in, and rounding to nearest, which keeps it, on the
  -- numbers from zero to one, where no operation gives an infinity.
  pub record IsMonotone : Type 0 where
    pub lt_le : (x y : R) → f.lt x y ≡ true → f.le x y ≡ true
    pub not_lt_zero : (x : R) → f.lt zero x ≡ true → f.lt x zero ≡ false
    pub not_le_zero : (x : R) → f.lt zero x ≡ true → f.le x zero ≡ false
    pub le_one : (x : R) → f.lt zero x ≡ true → f.lt one x ≡ false → f.le x one ≡ true
    pub one_le_one : f.le one one ≡ true
    pub zero_lt_one : f.lt zero one ≡ true
    pub le_trans : (a b c : R) → f.le a b ≡ true → f.le b c ≡ true → f.le a c ≡ true
    pub sub-IsUnit : (x : R) → IsUnit x → IsUnit (f.sub one x)
    pub mul-IsUnit : (a x : R) → IsUnit a → IsUnit x → IsUnit (f.mul a x)
    pub mul_le_self : (a x : R) → IsUnit a → IsUnit x → f.le (f.mul a x) x ≡ true
    pub le_add : (a x : R) → IsUnit a → IsUnit x → f.le a (f.add a x) ≡ true
    pub add_mono :
        (a x y : R)
        → IsUnit a
        → IsUnit x
        → IsUnit y
        → f.le x y ≡ true
        → f.le (f.add a x) (f.add a y) ≡ true
    pub add_complement : (x : R) → IsUnit x → f.le (f.add x (f.sub one x)) one ≡ true
    pub scale_mono :
        (x y : R)
        → IsUnit x
        → IsUnit y
        → f.le x y ≡ true
        → f.to_u8 (f.mul x hundred) ≤ f.to_u8 (f.mul y hundred)
    pub scale_one : f.to_u8 (f.mul one hundred) ≡ 100
