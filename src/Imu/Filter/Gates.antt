-- ===== src/Imu/Filter/Gates.antt =====
-- What waits for the board to be at rest, and for gravity to be trusted.
use project_emerge_dropbot_f.Prelude.{
  ◌≡◌, refl, sym, ◌∙◌, false, none, some, List, [], ◌∷◌, arith, true≢false,
}
use project_emerge_dropbot_f.Float.Vector.{Vec3}
use project_emerge_dropbot_f.Imu.Sample.{ImuSample}
use project_emerge_dropbot_f.Imu.Maths.{Maths}
use project_emerge_dropbot_f.Imu.Attitude.{gravity_is_trustworthy}
use project_emerge_dropbot_f.Imu.Filter.{
  ImuFilter, FilteredImu, new, measured_up, update_attitude, update, run, filtered,
}
use project_emerge_dropbot_f.Imu.Filter.Cases.{update_attitude-cases, update-cases}

module _ {R Q : Type 0} (l : Maths R Q) where
  -- Every output of a list.
  abbrev pub EachGiven : (FilteredImu R Q → Type 0) → List (FilteredImu R Q) → Type 0
  EachGiven P [] = Unit {0}
  EachGiven P (given ∷ later) = P given × EachGiven P later

  update_attitude-gyro_bias :
      (accelerometer gyroscope magnetometer : Vec3 R) (timestep : R) (s : ImuFilter R Q)
      → (update_attitude l accelerometer gyroscope magnetometer timestep s).gyro_bias ≡ s.gyro_bias
  update_attitude-gyro_bias accelerometer gyroscope magnetometer timestep s =
      update_attitude-cases l (λ t. t.gyro_bias ≡ s.gyro_bias) accelerometer gyroscope magnetometer
        timestep s (λ _. refl) (λ _ v _ q. refl) (λ _ q. refl) (λ _ _ q. refl)

  update-gyro_bias :
      (sample : ImuSample R) (elapsed : R) (s : ImuFilter R Q)
      → let (now, given) = update l sample elapsed s in
        given.is_stationary ≡ false → now.gyro_bias ≡ s.gyro_bias
  unfolding filtered
  update-gyro_bias sample elapsed s =
      update-cases l (λ now given. given.is_stationary ≡ false → now.gyro_bias ≡ s.gyro_bias) sample
        elapsed s
        (λ accelerometer gyroscope magnetometer timestep still t p e.
          update_attitude-gyro_bias accelerometer gyroscope magnetometer timestep t ∙ p.gyro_bias e)

  -- While no output says that the board is at rest, the estimate of the gyroscope's offset stays what
  -- it was, whatever is sampled.
  pub run-gyro_bias :
      (samples : List (ImuSample R × R)) (s : ImuFilter R Q)
      → EachGiven (λ o. o.is_stationary ≡ false) (run l samples s).1
      → (run l samples s).0.gyro_bias ≡ s.gyro_bias
  unfolding run
  run-gyro_bias [] s moving = refl
  run-gyro_bias ((sample, elapsed) ∷ samples) s (first, later) =
      run-gyro_bias samples (update l sample elapsed s).0 later
      ∙ update-gyro_bias sample elapsed s first

  abbrev pub IsLevel : ImuFilter R Q → Type 0
  IsLevel s = (s.seeded ≡ false) × (s.orientation ≡ l.identity)

  untrusted_up :
      (accelerometer : Vec3 R)
      → gravity_is_trustworthy l accelerometer ≡ false
      → measured_up l accelerometer ≡ none
  untrusted_up accelerometer e = rw e refl

  attitude-IsLevel :
      (accelerometer gyroscope magnetometer : Vec3 R) (timestep : R) (s : ImuFilter R Q)
      → IsLevel s
      → gravity_is_trustworthy l accelerometer ≡ false
      → IsLevel (update_attitude l accelerometer gyroscope magnetometer timestep s)
  attitude-IsLevel accelerometer gyroscope magnetometer timestep s (unseeded, flat) e =
      update_attitude-cases l IsLevel accelerometer gyroscope magnetometer timestep s
        (λ _. (unseeded, flat))
        (λ _ v found q. absurd (some_none v (sym found ∙ untrusted_up accelerometer e)))
        (λ seeded q. absurd (true≢false (sym seeded ∙ unseeded)))
        (λ seeded _ q. absurd (true≢false (sym seeded ∙ unseeded)))
    where
      some_none : (v : Vec3 R) → some v ≡ none → ⊥
      some_none v e = ground (arith, e)

  update-IsLevel :
      (sample : ImuSample R) (elapsed : R) (s : ImuFilter R Q)
      → IsLevel s
      → let (now, given) = update l sample elapsed s in
        gravity_is_trustworthy l given.accelerometer ≡ false
        → IsLevel now × (given.quaternion ≡ l.identity)
  unfolding filtered
  update-IsLevel sample elapsed s (unseeded, flat) =
      update-cases l
        (λ now given.
          gravity_is_trustworthy l given.accelerometer ≡ false
          → IsLevel now × (given.quaternion ≡ l.identity))
        sample elapsed s
        (λ accelerometer gyroscope magnetometer timestep still t p e.
          let now =
            attitude-IsLevel accelerometer gyroscope magnetometer timestep t
              (p.seeded ∙ unseeded, p.orientation ∙ flat) e in
          (now, now.1))

  run-IsLevel :
      (samples : List (ImuSample R × R)) (s : ImuFilter R Q)
      → IsLevel s
      → EachGiven (λ o. gravity_is_trustworthy l o.accelerometer ≡ false) (run l samples s).1
      → IsLevel (run l samples s).0 × EachGiven (λ o. o.quaternion ≡ l.identity) (run l samples s).1
  unfolding run
  run-IsLevel [] s level untrusted = (level, tt)
  run-IsLevel ((sample, elapsed) ∷ samples) s level (first, later) =
      let (now, given) = update-IsLevel sample elapsed s level first in
      let (end, rest) = run-IsLevel samples (update l sample elapsed s).0 now later in
      (end, (given, rest))

  -- While the smoothed acceleration of every output is too far from gravity to be trusted, as in free
  -- fall, a fresh filter does not guess an attitude: every output has the level one, and so has the
  -- filter at the end, still without its first attitude.
  pub run-new-IsLevel :
      (samples : List (ImuSample R × R))
      → EachGiven (λ o. gravity_is_trustworthy l o.accelerometer ≡ false) (run l samples (new l)).1
      → IsLevel (run l samples (new l)).0
        × EachGiven (λ o. o.quaternion ≡ l.identity) (run l samples (new l)).1
  run-new-IsLevel samples = run-IsLevel samples (new l) (refl, refl)
