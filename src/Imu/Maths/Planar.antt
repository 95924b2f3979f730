-- ===== src/Imu/Maths/Planar.antt =====
-- Rough operations on thousandths, and rotations about the vertical axis as angles, on which the
-- models that use them run.
use project_emerge_dropbot_f.Prelude.{◌/◌, ◌%◌, none, some, if◌then◌else◌, arith}
use project_emerge_dropbot_f.Prelude.Int.{
  ℤ, pos, negsuc, pos_part, neg_part, sub_ℕ, ◌+ℤ◌, ◌-ℤ◌, ltb_ℤ,
}
use project_emerge_dropbot_f.Float.Fixed.{fixed}
use project_emerge_dropbot_f.Float.Vector.{Vec3}
use project_emerge_dropbot_f.Imu.Maths.{Maths, IsOrdered}

abbrev lower : ℤ → ℤ → ℤ
lower a b = if ltb_ℤ b a then b else a

abbrev higher : ℤ → ℤ → ℤ
higher a b = if ltb_ℤ a b then b else a

-- The remainder, with the sign of what is divided.
abbrev remainder : ℤ → ℤ → ℤ
remainder a b = sub_ℕ (pos_part a % pos_part b) (neg_part a % pos_part b)

-- The middle of the quadrant.
abbrev quadrant : ℤ → ℤ → ℤ
quadrant (pos y) (pos x) = pos 785
quadrant (pos y) (negsuc x) = pos 2356
quadrant (negsuc y) (pos x) = negsuc 784
quadrant (negsuc y) (negsuc x) = negsuc 2355

abbrev size : ℤ → ℤ
size a = fixed.abs a

abbrev each : (ℤ → ℤ) → Vec3 ℤ → Vec3 ℤ
each g v = record { x = g v.x; y = g v.y; z = g v.z }

abbrev both : (ℤ → ℤ → ℤ) → Vec3 ℤ → Vec3 ℤ → Vec3 ℤ
both g v w = record { x = g v.x w.x; y = g v.y w.y; z = g v.z w.z }

abbrev sum : Vec3 ℤ → ℤ
sum v = v.x +ℤ v.y +ℤ v.z

abbrev pub planar : Maths ℤ ℤ
planar = record {
  f32 = fixed;
  min = lower;
  max = higher;
  rem = remainder;
  sqrt = λ a. a;
  atan2 = quadrant;
  pi = pos 3142;
  to_u32 = λ a. pos_part a / 1000;
  plus = both ◌+ℤ◌;
  minus = both ◌-ℤ◌;
  scale = λ v k. each (λ a. fixed.mul a k) v;
  abs = each size;
  max_element = λ v. higher v.x (higher v.y v.z);
  length = λ v. sum (each size v);
  dot = λ v w. sum (both fixed.mul v w);
  cross = λ v w. record {
    x = fixed.mul v.y w.z -ℤ fixed.mul v.z w.y;
    y = fixed.mul v.z w.x -ℤ fixed.mul v.x w.z;
    z = fixed.mul v.x w.y -ℤ fixed.mul v.y w.x;
  };
  try_normalize = λ v. if ltb_ℤ (pos 0) (sum (each size v)) then some v else none;
  identity = pos 0;
  from_rotation_x = λ a. pos 0;
  from_rotation_y = λ a. pos 0;
  from_rotation_z = λ a. a;
  from_scaled_axis = λ v. v.z;
  compose = ◌+ℤ◌;
  normalize = λ q. q;
  conjugate = λ q. fixed.neg q;
  rotate = λ q v. v;
}

pub planar-IsOrdered : IsOrdered planar
planar-IsOrdered = record {
  min_left = λ a b m n. ground arith;
  min_right = λ a b m n. ground arith;
  max_left = λ a b m n. ground arith;
  max_right = λ a b m n. ground arith;
  min_number = λ a b m n. ground arith;
  max_number = λ a b m n. ground arith;
  le_trans = λ a b c h k. ground arith;
}
