-- ===== src/Imu/Filter/Cases.antt =====
-- Everything that an update may do to the state, for any property of what it leaves and gives.
use project_emerge_dropbot_f.Prelude.{
  ◌≡◌, refl, Bool, true, false, not, if◌then◌else◌, if_cases, not-true, not-false, true≢false,
  Option, none, some, arith,
}
use project_emerge_dropbot_f.Float.Vector.{Vec3}
use project_emerge_dropbot_f.Imu.Sample.{ImuSample}
use project_emerge_dropbot_f.Imu.Maths.{Maths}
use project_emerge_dropbot_f.Imu.Attitude.{
  zero, zero_vector, world_up, degrees_per_radian, gravity_correction_tau_s, to_body, with_heading,
  from_gravity, heading,
}
use project_emerge_dropbot_f.Imu.HardIron.{is_usable, observe}
use project_emerge_dropbot_f.Imu.Filter.{
  ImuFilter, FilteredImu, magnetic_heading, measured_up, seed, snap_heading, turn, correct,
  update_attitude, update, filter_magnetometer, rest, filtered,
}

some_from :
    {A : Type 0} (b : Bool) (o : Option A) (a : A) → (if not b then none else o) ≡ some a → b ≡ true
some_from true o a e = refl
some_from false o a e = ground (arith, e)

module _ {R Q : Type 0} (l : Maths R Q) where
  magnetic_heading-is_usable :
      (s : ImuFilter R Q) (magnetometer : Vec3 R) (north : R)
      → magnetic_heading l s magnetometer ≡ some north
      → is_usable s.hard_iron ≡ true
  unfolding magnetic_heading
  magnetic_heading-is_usable s magnetometer north e = some_from (is_usable s.hard_iron) _ north e

  -- The corrections change the orientation only.
  correct-cases :
      (P : ImuFilter R Q → Type 0) (up : Option (Vec3 R)) (gyroscope magnetometer : Vec3 R)
      (timestep : R) (s : ImuFilter R Q)
      → ((q : Q) → P (record s { orientation = q }))
      → P (correct l up gyroscope magnetometer timestep s)
  unfolding correct turn
  correct-cases P none gyroscope magnetometer timestep s turned = turned _
  correct-cases P (some up) gyroscope magnetometer timestep s turned =
      let predicted_up = to_body l s.orientation (world_up l) in
      if_cases P (l.f32.lt (l.dot up predicted_up) (zero l))
        (record s { orientation = with_heading l (from_gravity l up) (heading l s.orientation) })
        (turn l gyroscope magnetometer
          (l.plus (zero_vector l) (
            l.scale (l.cross up predicted_up)
              (l.f32.div (degrees_per_radian l) (gravity_correction_tau_s l))))
          timestep s)
        (λ _. turned _) (λ _. turned _)

  seed-cases :
      (P : ImuFilter R Q → Type 0) (up : Option (Vec3 R)) (s : ImuFilter R Q)
      → (up ≡ none → P s)
      → ((v : Vec3 R) → up ≡ some v → (q : Q) → P (record s { orientation = q; seeded = true }))
      → P (seed l up s)
  unfolding seed
  seed-cases P none s silent found = silent refl
  seed-cases P (some v) s silent found = found v refl _

  snap-cases :
      (P : ImuFilter R Q → Type 0) (north : Option R) (s : ImuFilter R Q)
      → P s
      → ((v : R)
          → north ≡ some v
          → (q : Q) → P (record s { orientation = q; heading_seeded = true }))
      → P (snap_heading l north s)
  unfolding snap_heading
  snap-cases P none s kept snapped = kept
  snap-cases P (some v) s kept snapped = snapped v refl _

  -- All that an update of the attitude does: nothing yet, the first attitude, a new orientation, or
  -- a new orientation with its heading set, which needs a usable estimate.
  pub update_attitude-cases :
      (P : ImuFilter R Q → Type 0) (accelerometer gyroscope magnetometer : Vec3 R) (timestep : R)
      (s : ImuFilter R Q)
      → (s.seeded ≡ false → P s)
      → (s.seeded ≡ false
          → (v : Vec3 R) → measured_up l accelerometer ≡ some v
          → (q : Q) → P (record s { orientation = q; seeded = true }))
      → (s.seeded ≡ true → (q : Q) → P (record s { orientation = q }))
      → (s.seeded ≡ true
          → is_usable s.hard_iron ≡ true
          → (q : Q) → P (record s { orientation = q; heading_seeded = true }))
      → P (update_attitude l accelerometer gyroscope magnetometer timestep s)
  unfolding update_attitude
  update_attitude-cases P accelerometer gyroscope magnetometer timestep s waits seeds turns snaps =
      let up = measured_up l accelerometer in
      let north = magnetic_heading l s magnetometer in
      let corrected = correct l up gyroscope magnetometer timestep in
      if_cases P (not s.seeded) (seed l up s)
        (corrected (if s.heading_seeded then s else snap_heading l north s))
        (λ e. seed-cases P up s (λ _. waits (not-true s.seeded e)) (seeds (not-true s.seeded e)))
        (λ e.
          let seeded = not-false s.seeded e in
          let Turned : ImuFilter R Q → Type 0 = λ t. P (corrected t) in
          if_cases Turned s.heading_seeded s (snap_heading l north s)
            (λ _. correct-cases P up gyroscope magnetometer timestep s (turns seeded))
            (λ _.
              snap-cases Turned north s
                (correct-cases P up gyroscope magnetometer timestep s (turns seeded))
                (λ v found q.
                  correct-cases P up gyroscope magnetometer timestep
                    (record s { orientation = q; heading_seeded = true })
                    (snaps seeded (magnetic_heading-is_usable s magnetometer v found)))))

  -- The state that the attitude is updated from: one observation of the field, and the gyroscope's
  -- offset as it was unless the board is at rest.
  pub record IsPrepared (still : Bool) (s t : ImuFilter R Q) : Type 0 where
    pub observed : (v : Vec3 R) × (t.hard_iron ≡ observe l v s.hard_iron)
    pub orientation : t.orientation ≡ s.orientation
    pub seeded : t.seeded ≡ s.seeded
    pub heading_seeded : t.heading_seeded ≡ s.heading_seeded
    pub gyro_bias : still ≡ false → t.gyro_bias ≡ s.gyro_bias

  rest-IsPrepared :
      (still : Bool) (gyroscope : Vec3 R) (timestep : R) (s t : ImuFilter R Q)
      → IsPrepared false s t
      → IsPrepared still s (rest l still gyroscope timestep t)
  unfolding rest
  rest-IsPrepared true gyroscope timestep s t p = record {
    observed = p.observed;
    orientation = p.orientation;
    seeded = p.seeded;
    heading_seeded = p.heading_seeded;
    gyro_bias = λ e. absurd (true≢false e);
  }
  rest-IsPrepared false gyroscope timestep s t p = p

  pub update-cases :
      (P : ImuFilter R Q → FilteredImu R Q → Type 0) (sample : ImuSample R) (elapsed : R)
      (s : ImuFilter R Q)
      → ((accelerometer gyroscope magnetometer : Vec3 R) (timestep : R) (still : Bool)
            (t : ImuFilter R Q)
          → IsPrepared still s t
          → let now = update_attitude l accelerometer gyroscope magnetometer timestep t in
            P now (filtered l accelerometer gyroscope magnetometer still now))
      → P (update l sample elapsed s).0 (update l sample elapsed s).1
  unfolding update filter_magnetometer
  update-cases P sample elapsed s updated = updated _ _ _ _ _ _ (
      rest-IsPrepared _ _ _ s _ (record {
        observed = (_, refl);
        orientation = refl;
        seeded = refl;
        heading_seeded = refl;
        gyro_bias = λ _. refl;
      }))
