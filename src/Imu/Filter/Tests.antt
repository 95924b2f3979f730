-- ===== src/Imu/Filter/Tests.antt =====
-- A board that falls, one that turns, and one that stands still.
use project_emerge_dropbot_f.Prelude.{ℕ, ◌≡◌, ◌≤◌, ◌⊎◌, refl, false, none, List, [], ◌∷◌, length}
use project_emerge_dropbot_f.Prelude.Int
use project_emerge_dropbot_f.Float
use project_emerge_dropbot_f.Float.Fixed
use project_emerge_dropbot_f.Prelude.Int.{ℤ, pos, negsuc}
use project_emerge_dropbot_f.Float.Vector.{Vec3}
use project_emerge_dropbot_f.Imu.Sample.{ImuSample}
use project_emerge_dropbot_f.Imu.Maths.Planar.{planar}
use project_emerge_dropbot_f.Imu.Attitude.{gravity_is_trustworthy}
use project_emerge_dropbot_f.Imu.Filter.{new, run}
use project_emerge_dropbot_f.Imu.Filter.Coherent.{IsCoherent, run-new-IsCoherent}
use project_emerge_dropbot_f.Imu.Filter.Heading.{Headings, run-new-Headings}
use project_emerge_dropbot_f.Imu.Filter.Gates.{EachGiven, IsLevel, run-new-IsLevel}

abbrev vector : ℤ → ℤ → ℤ → Vec3 ℤ
vector x y z = record { x = x; y = y; z = z }

abbrev sampled : ℤ → ℤ → ImuSample ℤ × ℤ
sampled acceleration rate = (
  record {
    accelerometer = vector (pos 0) (pos 0) acceleration;
    gyroscope = vector (pos 0) (pos 0) rate;
    magnetometer = vector (pos 20000) (pos 0) (pos 40000);
    temperature = none;
  },
  pos 10,
)

abbrev falling : List (ImuSample ℤ × ℤ)
falling = sampled (pos 0) (pos 0) ∷ sampled (pos 100) (pos 90000) ∷ []

abbrev turning : List (ImuSample ℤ × ℤ)
turning = sampled (pos 9806) (pos 90000) ∷ sampled (pos 9806) (pos 90000) ∷ []

never_still : EachGiven planar (λ o. o.is_stationary ≡ false) (run planar turning (new planar)).1
unfolding run gravity_is_trustworthy Int.◌+ℤ◌ Int.◌-ℤ◌ Fixed.mul Fixed.div Float.clamp
never_still = (refl, (refl, tt))

untrusted :
    EachGiven planar
      (λ o. gravity_is_trustworthy planar o.accelerometer ≡ false)
      (run planar falling (new planar)).1
unfolding run gravity_is_trustworthy Int.◌+ℤ◌ Int.◌-ℤ◌ Fixed.mul Fixed.div Float.clamp
untrusted = (refl, (refl, tt))

run-new-IsCoherent_example : IsCoherent planar (run planar turning (new planar)).0
run-new-IsCoherent_example = run-new-IsCoherent planar turning

run-new-Headings_example :
    let given = (run planar turning (new planar)).1 in
    (n : ℕ) × Headings n given × ((n ≡ length given) ⊎ (8 ≤ n))
run-new-Headings_example = run-new-Headings planar turning

run-new-IsLevel_example :
    IsLevel planar (run planar falling (new planar)).0
    × EachGiven planar (λ o. o.quaternion ≡ pos 0) (run planar falling (new planar)).1
run-new-IsLevel_example = run-new-IsLevel planar falling untrusted
