-- ===== src/Imu/HardIron.antt =====
-- src/data/imu.rs: the estimate of the field that the board carries with it.
pub mod Sectors
pub mod Coverage
pub mod Box
mod Tests
use Prim.Native.Nat.{bit_or}
use project_emerge_dropbot_f.Prelude.{
  ℕ, zero, suc, ◌+◌, ◌-◌, ◌/◌, ◌%◌, Bool, true, false, not, if◌then◌else◌, List, [], ◌∷◌, leb, min,
}
use project_emerge_dropbot_f.Prelude.Int.{pos}
use project_emerge_dropbot_f.Prelude.Bits.{shl}
use project_emerge_dropbot_f.Float.Vector.{Vec3}
use project_emerge_dropbot_f.Imu.Maths.{Maths}
use project_emerge_dropbot_f.Imu.Attitude.{zero_vector, degrees_per_radian, wrap_360, hypot}

abbrev pub hard_iron_sectors : ℕ
hard_iron_sectors = 12

abbrev pub hard_iron_sectors_required : ℕ
hard_iron_sectors_required = 8

pub record HardIron (R : Type 0) : Type 0 where
  pub min : Vec3 R
  pub max : Vec3 R
  pub seen : Bool
  pub sectors : ℕ

-- `count_ones` of a word of so many bits.
unfoldable pub count_ones : ℕ → ℕ → ℕ
count_ones zero n = 0
count_ones (suc width) n = n % 2 + count_ones width (n / 2)

-- A sector is marked.
unfoldable pub vote : ℕ → ℕ → ℕ
vote sectors sector = bit_or sectors (shl (min sector (hard_iron_sectors - 1)) 1)

unfoldable pub is_usable : {R : Type 0} → HardIron R → Bool
unfolding count_ones
is_usable h = leb hard_iron_sectors_required (count_ones 16 h.sectors)

module _ {R Q : Type 0} (l : Maths R Q) where
  abbrev pub hard_iron_min_radius_ut : R
  hard_iron_min_radius_ut = l.f32.literal 5 1

  abbrev pub blank : HardIron R
  blank = record { min = zero_vector l; max = zero_vector l; seen = false; sectors = 0 }

  unfoldable pub offset : HardIron R → Vec3 R
  offset h = l.scale (l.plus h.min h.max) (l.f32.literal 1 2)

  -- The sector of a sample about the centre.
  unfoldable pub sector_of : Vec3 R → ℕ
  unfolding wrap_360
  sector_of centred =
      let bearing = wrap_360 l (l.f32.mul (l.atan2 centred.y centred.x) (degrees_per_radian l)) in
      l.to_u32
        (l.f32.div bearing (l.f32.div (l.f32.literal 360 1) (l.f32.of_int (pos hard_iron_sectors))))

  abbrev pub widened : HardIron R → Vec3 R → HardIron R
  widened h sample = record h {
    min = record {
      x = l.min h.min.x sample.x;
      y = l.min h.min.y sample.y;
      z = l.min h.min.z sample.z;
    };
    max = record {
      x = l.max h.max.x sample.x;
      y = l.max h.max.y sample.y;
      z = l.max h.max.z sample.z;
    };
  }

  -- The vote of a sample for its sector.
  unfoldable pub voted : HardIron R → Vec3 R → HardIron R
  unfolding sector_of vote
  voted h centred =
      if l.f32.le hard_iron_min_radius_ut (hypot l centred.x centred.y)
      then record h { sectors = vote h.sectors (sector_of centred) }
      else h

  unfoldable pub observe : Vec3 R → HardIron R → HardIron R
  unfolding offset voted
  observe sample h =
      if not h.seen
      then record h { min = sample; max = sample; seen = true }
      else (let now = widened h sample in voted now (l.minus sample (offset now)))

  unfoldable pub observe_all : List (Vec3 R) → HardIron R → HardIron R
  unfolding observe
  observe_all [] h = h
  observe_all (sample ∷ samples) h = observe_all samples (observe sample h)
