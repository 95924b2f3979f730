-- ===== src/Imu/HardIron/Tests.antt =====
-- A field of 40 microtesla that turns by quarters.
use project_emerge_dropbot_f.Prelude.{
  ◌≡◌, ◌≤◌, ◌<◌, ◌-◌, ◌⊎◌, refl, true, false, List, [], ◌∷◌, length,
}
use project_emerge_dropbot_f.Prelude.Int
use project_emerge_dropbot_f.Float.Fixed
use project_emerge_dropbot_f.Prelude.Int.{ℤ, pos, negsuc}
use project_emerge_dropbot_f.Float.Vector.{Vec3}
use project_emerge_dropbot_f.Imu.Maths.Planar.{planar, planar-IsOrdered}
use project_emerge_dropbot_f.Imu.HardIron.{
  HardIron, count_ones, vote, is_usable, blank, observe_all,
}
use project_emerge_dropbot_f.Imu.HardIron.Coverage.{covered, observe_all-covered}
use project_emerge_dropbot_f.Imu.HardIron.Box.{IsInside, Each, observe_all-IsInside}

abbrev field : ℤ → ℤ → Vec3 ℤ
field x y = record { x = x; y = y; z = pos 5000 }

abbrev turning : List (Vec3 ℤ)
turning =
    field (pos 40000) (pos 0)
    ∷ field (pos 0) (pos 40000)
    ∷ field (negsuc 39999) (pos 0)
    ∷ field (pos 0) (negsuc 39999)
    ∷ []

-- A sector that is past the last one is the last.
voted_past : vote 1 99 ≡ 2049
unfolding vote
voted_past = refl

eight : count_ones 16 0b111100001111 ≡ 8
unfolding count_ones
eight = refl

turned : covered (observe_all planar turning (blank planar)) ≡ 3
unfolding observe_all count_ones Int.◌+ℤ◌ Int.◌-ℤ◌ Fixed.mul Fixed.div
turned = refl

abbrev ready : HardIron ℤ
ready = record {
  min = field (pos 0) (pos 0);
  max = field (pos 0) (pos 0);
  seen = true;
  sectors = 255;
}

observe_all-covered_example :
    let h = observe_all planar turning (blank planar) in
    (h.sectors < 4096)
    × (covered h ≤ 12)
    × (covered h ≤ length turning - 1)
    × ((is_usable h ≡ false) ⊎ (9 ≤ length turning))
observe_all-covered_example = observe_all-covered planar turning

observe_all-IsInside_example :
    Each planar (IsInside planar (observe_all planar turning (blank planar))) turning
observe_all-IsInside_example =
    observe_all-IsInside planar planar-IsOrdered turning
      ((refl, refl, refl), ((refl, refl, refl), ((refl, refl, refl), ((refl, refl, refl), tt))))
