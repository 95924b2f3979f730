-- ===== src/Imu/Maths.antt =====
-- What the filter takes from the crates `glam` and `libm` and from `f32`, none of which is part of this
-- repository: operations on numbers R, vectors of three and rotations Q, all left open.
pub mod Planar
use project_emerge_dropbot_f.Prelude.{ℕ, ◌≡◌, Option, true}
use project_emerge_dropbot_f.Float.{F32}
use project_emerge_dropbot_f.Float.Vector.{Vec3}

pub record Maths (R Q : Type 0) : Type 0 where
  pub f32 : F32 R
  pub min : R → R → R
  pub max : R → R → R
  pub rem : R → R → R
  pub sqrt : R → R
  pub atan2 : R → R → R
  pub pi : R
  -- `as u32`, which saturates.
  pub to_u32 : R → ℕ
  -- Vectors.
  pub plus : Vec3 R → Vec3 R → Vec3 R
  pub minus : Vec3 R → Vec3 R → Vec3 R
  pub scale : Vec3 R → R → Vec3 R
  pub abs : Vec3 R → Vec3 R
  pub max_element : Vec3 R → R
  pub length : Vec3 R → R
  pub dot : Vec3 R → Vec3 R → R
  pub cross : Vec3 R → Vec3 R → Vec3 R
  pub try_normalize : Vec3 R → Option (Vec3 R)
  -- Rotations.
  pub identity : Q
  pub from_rotation_x : R → Q
  pub from_rotation_y : R → Q
  pub from_rotation_z : R → Q
  pub from_scaled_axis : Vec3 R → Q
  pub compose : Q → Q → Q
  pub normalize : Q → Q
  pub conjugate : Q → Q
  pub rotate : Q → Vec3 R → Vec3 R

-- The order of numbers, of which `le x x` says that x is no NaN.
pub record IsOrdered {R Q : Type 0} (l : Maths R Q) : Type 0 where
  pub min_left :
      (a b : R) → l.f32.le a a ≡ true → l.f32.le b b ≡ true → l.f32.le (l.min a b) a ≡ true
  pub min_right :
      (a b : R) → l.f32.le a a ≡ true → l.f32.le b b ≡ true → l.f32.le (l.min a b) b ≡ true
  pub max_left :
      (a b : R) → l.f32.le a a ≡ true → l.f32.le b b ≡ true → l.f32.le a (l.max a b) ≡ true
  pub max_right :
      (a b : R) → l.f32.le a a ≡ true → l.f32.le b b ≡ true → l.f32.le b (l.max a b) ≡ true
  pub min_number :
      (a b : R)
      → l.f32.le a a ≡ true
      → l.f32.le b b ≡ true
      → l.f32.le (l.min a b) (l.min a b) ≡ true
  pub max_number :
      (a b : R)
      → l.f32.le a a ≡ true
      → l.f32.le b b ≡ true
      → l.f32.le (l.max a b) (l.max a b) ≡ true
  pub le_trans : (a b c : R) → l.f32.le a b ≡ true → l.f32.le b c ≡ true → l.f32.le a c ≡ true
