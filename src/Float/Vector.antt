-- ===== src/Float/Vector.antt =====
-- Three-axis readings: `Vec3` of the crate `glam`, of which a vector is its three components.
pub record Vec3 (R : Type 0) : Type 0 where
  pub x : R
  pub y : R
  pub z : R
