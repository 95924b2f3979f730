-- ===== src/Imu/Filter/Coherent.antt =====
-- What holds of the state of a filter after any samples.
use project_emerge_dropbot_f.Prelude.{
  ◌≡◌, refl, sym, ap, ◌∙◌, true, false, true≢false, List, [], ◌∷◌,
}
use project_emerge_dropbot_f.Float.Vector.{Vec3}
use project_emerge_dropbot_f.Imu.Sample.{ImuSample}
use project_emerge_dropbot_f.Imu.Maths.{Maths}
use project_emerge_dropbot_f.Imu.HardIron.{is_usable}
use project_emerge_dropbot_f.Imu.HardIron.Coverage.{observe-is_usable}
use project_emerge_dropbot_f.Imu.Filter.Cases.{update_attitude-cases, update-cases}
use project_emerge_dropbot_f.Imu.Filter.{ImuFilter, new, update_attitude, update, run}

module _ {R Q : Type 0} (l : Maths R Q) where
  -- A filter that has a heading has a usable estimate, and one that has not found the direction of
  -- gravity has neither a heading nor an attitude.
  pub record IsCoherent (s : ImuFilter R Q) : Type 0 where
    pub pointed : s.heading_seeded ≡ true → is_usable s.hard_iron ≡ true
    pub level : s.seeded ≡ false → (s.orientation ≡ l.identity) × (s.heading_seeded ≡ false)

  attitude-IsCoherent :
      (accelerometer gyroscope magnetometer : Vec3 R) (timestep : R) (s : ImuFilter R Q)
      → IsCoherent s
      → IsCoherent (update_attitude l accelerometer gyroscope magnetometer timestep s)
  attitude-IsCoherent accelerometer gyroscope magnetometer timestep s c =
      update_attitude-cases l IsCoherent accelerometer gyroscope magnetometer timestep s (λ _. c)
        (λ _ v _ q. record { pointed = c.pointed; level = λ e. absurd (true≢false e) })
        (λ seeded q. record {
          pointed = c.pointed;
          level = λ e. absurd (true≢false (sym seeded ∙ e));
        })
        (λ seeded usable q. record {
          pointed = λ _. usable;
          level = λ e. absurd (true≢false (sym seeded ∙ e));
        })

  update-IsCoherent :
      (sample : ImuSample R) (elapsed : R) (s : ImuFilter R Q)
      → IsCoherent s
      → IsCoherent (update l sample elapsed s).0
  update-IsCoherent sample elapsed s c =
      update-cases l (λ now _. IsCoherent now) sample elapsed s
        (λ accelerometer gyroscope magnetometer timestep still t p.
          attitude-IsCoherent accelerometer gyroscope magnetometer timestep t (record {
            pointed = λ e.
                ap is_usable p.observed.1
                ∙ observe-is_usable l p.observed.0 s.hard_iron
                    (c.pointed (sym p.heading_seeded ∙ e));
            level = λ e.
                let (flat, unknown) = c.level (sym p.seeded ∙ e) in
                (p.orientation ∙ flat, p.heading_seeded ∙ unknown);
          }))

  run-IsCoherent :
      (samples : List (ImuSample R × R)) (s : ImuFilter R Q)
      → IsCoherent s
      → IsCoherent (run l samples s).0
  unfolding run
  run-IsCoherent [] s c = c
  run-IsCoherent ((sample, elapsed) ∷ samples) s c =
      run-IsCoherent samples (update l sample elapsed s).0 (update-IsCoherent sample elapsed s c)

  -- After any samples of a fresh filter, whatever they measure: the heading was set to the magnetometer
  -- only if the hard-iron estimate is usable, and until gravity was found the attitude is the level one,
  -- with no heading set.
  pub run-new-IsCoherent : (samples : List (ImuSample R × R)) → IsCoherent (run l samples (new l)).0
  run-new-IsCoherent samples =
      run-IsCoherent samples (new l)
        (record { pointed = λ e. absurd (true≢false (sym e)); level = λ _. (refl, refl) })
