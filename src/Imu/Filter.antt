-- ===== src/Imu/Filter.antt =====
-- src/data/imu.rs: the low-pass filters, the attitude's corrections, and the whole of an update.
pub mod Cases
pub mod Coherent
pub mod Heading
pub mod Gates
mod Tests
use project_emerge_dropbot_f.Prelude.{
  ℕ, Bool, true, false, not, ◌&&◌, if◌then◌else◌, Option, none, some, List, [], ◌∷◌, ◌++◌,
}
use project_emerge_dropbot_f.Float.{clamp}
use project_emerge_dropbot_f.Float.Vector.{Vec3}
use project_emerge_dropbot_f.Imu.Sample.{ImuSample}
use project_emerge_dropbot_f.Imu.Maths.{Maths}
use project_emerge_dropbot_f.Imu.Attitude.{
  zero, gravity, degrees_per_radian, zero_vector, world_up, accelerometer_cutoff_hz,
  gyroscope_cutoff_hz, magnetometer_cutoff_hz, gyro_bias_tau_s, gravity_correction_tau_s,
  heading_correction_tau_s, min_timestep_s, max_timestep_s, correction_weight, is_stationary,
  gravity_is_trustworthy, wrap_360, wrap_180, to_body, to_world, from_board_euler, from_gravity,
  roll_pitch, with_heading, integrated, heading,
}
use project_emerge_dropbot_f.Imu.HardIron.{HardIron, blank, offset, observe, is_usable}

pub record FilteredImu (R Q : Type 0) : Type 0 where
  pub accelerometer : Vec3 R
  pub gyroscope : Vec3 R
  pub magnetometer : Vec3 R
  pub linear_acceleration : Vec3 R
  pub quaternion : Q
  pub roll : R
  pub pitch : R
  pub heading : Option R
  pub is_stationary : Bool

pub record LowPass (R : Type 0) : Type 0 where
  pub cutoff_hz : R
  pub state : Option (Vec3 R)

pub record ImuFilter (R Q : Type 0) : Type 0 where
  pub accelerometer : LowPass R
  pub gyroscope : LowPass R
  pub magnetometer : LowPass R
  pub hard_iron : HardIron R
  pub gyro_bias : Vec3 R
  pub orientation : Q
  pub seeded : Bool
  pub heading_seeded : Bool

module _ {R Q : Type 0} (l : Maths R Q) where
  abbrev pub low_pass : R → LowPass R
  low_pass cutoff_hz = record { cutoff_hz = cutoff_hz; state = none }

  abbrev pub new : ImuFilter R Q
  new = record {
    accelerometer = low_pass (accelerometer_cutoff_hz l);
    gyroscope = low_pass (gyroscope_cutoff_hz l);
    magnetometer = low_pass (magnetometer_cutoff_hz l);
    hard_iron = blank l;
    gyro_bias = zero_vector l;
    orientation = l.identity;
    seeded = false;
    heading_seeded = false;
  }

  -- The next state of a low-pass filter, which is also what it gives.
  unfoldable pub smoothed : R → Option (Vec3 R) → Vec3 R → R → Vec3 R
  unfolding correction_weight
  smoothed cutoff_hz none sample timestep = sample
  smoothed cutoff_hz (some previous) sample timestep =
      let time_constant =
        l.f32.div (l.f32.literal 1 1) (l.f32.mul (l.f32.mul (l.f32.literal 2 1) l.pi) cutoff_hz) in
      l.plus previous
        (l.scale (l.minus sample previous) (correction_weight l time_constant timestep))

  unfoldable pub low_pass_update : LowPass R → Vec3 R → R → LowPass R × Vec3 R
  unfolding smoothed
  low_pass_update p sample timestep =
      let state = smoothed p.cutoff_hz p.state sample timestep in
      (record p { state = some state }, state)

  unfoldable pub filter_magnetometer : Vec3 R → R → ImuFilter R Q → ImuFilter R Q × Vec3 R
  unfolding low_pass_update
  filter_magnetometer sample timestep s =
      let (low, magnetometer) = low_pass_update s.magnetometer sample timestep in
      let estimate = observe l magnetometer s.hard_iron in
      (
        record s { magnetometer = low; hard_iron = estimate },
        if is_usable estimate then l.minus magnetometer (offset l estimate) else magnetometer,
      )

  unfoldable pub magnetic_heading : ImuFilter R Q → Vec3 R → Option R
  unfolding roll_pitch to_world from_board_euler wrap_360
  magnetic_heading s magnetometer =
      if not (is_usable s.hard_iron)
      then none
      else (let (roll, pitch) = roll_pitch l s.orientation in
          let level = to_world l (from_board_euler l roll pitch (zero l)) magnetometer in
          some (wrap_360 l (l.f32.mul (l.atan2 level.y level.x) (degrees_per_radian l))))

  -- The direction of gravity that a reading gives, where it is to be trusted.
  abbrev pub measured_up : Vec3 R → Option (Vec3 R)
  measured_up accelerometer =
      if gravity_is_trustworthy l accelerometer then l.try_normalize accelerometer else none

  unfoldable pub seed : Option (Vec3 R) → ImuFilter R Q → ImuFilter R Q
  unfolding from_gravity
  seed none s = s
  seed (some up) s = record s { orientation = from_gravity l up; seeded = true }

  unfoldable pub snap_heading : Option R → ImuFilter R Q → ImuFilter R Q
  unfolding with_heading
  snap_heading none s = s
  snap_heading (some north) s = record s {
    orientation = with_heading l s.orientation north;
    heading_seeded = true;
  }

  unfoldable pub heading_correction : Option R → Q → Vec3 R → Vec3 R
  unfolding wrap_180 heading to_body
  heading_correction none orientation correction = correction
  heading_correction (some from_magnetometer) orientation correction =
      let error = wrap_180 l (l.f32.sub from_magnetometer (heading l orientation)) in
      let about_vertical : Vec3 R = record {
        x = zero l;
        y = zero l;
        z = l.f32.div (l.f32.neg error) (heading_correction_tau_s l);
      } in
      l.plus correction (to_body l orientation about_vertical)

  -- The end of an update: the magnetometer's correction, and the integration of the rate.
  unfoldable pub turn : Vec3 R → Vec3 R → Vec3 R → R → ImuFilter R Q → ImuFilter R Q
  unfolding magnetic_heading heading_correction integrated
  turn gyroscope magnetometer correction timestep s =
      let all = heading_correction (magnetic_heading s magnetometer) s.orientation correction in
      record s { orientation = integrated l s.orientation (l.plus gyroscope all) timestep }

  -- The correction by gravity, which may snap the attitude instead.
  unfoldable pub correct : Option (Vec3 R) → Vec3 R → Vec3 R → R → ImuFilter R Q → ImuFilter R Q
  unfolding turn to_body from_gravity with_heading heading
  correct none gyroscope magnetometer timestep s =
      turn gyroscope magnetometer (zero_vector l) timestep s
  correct (some up) gyroscope magnetometer timestep s =
      let predicted_up = to_body l s.orientation (world_up l) in
      if l.f32.lt (l.dot up predicted_up) (zero l)
      then record s { orientation = with_heading l (from_gravity l up) (heading l s.orientation) }
      else turn gyroscope magnetometer
          (l.plus (zero_vector l) (
            l.scale (l.cross up predicted_up)
              (l.f32.div (degrees_per_radian l) (gravity_correction_tau_s l))))
          timestep s

  unfoldable pub update_attitude : Vec3 R → Vec3 R → Vec3 R → R → ImuFilter R Q → ImuFilter R Q
  unfolding seed snap_heading magnetic_heading correct
  update_attitude accelerometer gyroscope magnetometer timestep s =
      let up = measured_up accelerometer in
      if not s.seeded
      then seed up s
      else (let pointed =
            if s.heading_seeded then s else snap_heading (magnetic_heading s magnetometer) s in
          correct up gyroscope magnetometer timestep pointed)

  -- What an update gives, of the state that it leaves and the readings it has filtered.
  unfoldable pub filtered : Vec3 R → Vec3 R → Vec3 R → Bool → ImuFilter R Q → FilteredImu R Q
  unfolding roll_pitch to_body heading
  filtered accelerometer gyroscope magnetometer still s = record {
    accelerometer = accelerometer;
    gyroscope = gyroscope;
    magnetometer = magnetometer;
    linear_acceleration =
        l.minus accelerometer
          (to_body l s.orientation (record { x = zero l; y = zero l; z = gravity l }));
    quaternion = s.orientation;
    roll = (roll_pitch l s.orientation).0;
    pitch = (roll_pitch l s.orientation).1;
    heading = if is_usable s.hard_iron then some (heading l s.orientation) else none;
    is_stationary = still;
  }

  -- The estimate of the gyroscope's offset, which a board at rest corrects.
  unfoldable pub rest : Bool → Vec3 R → R → ImuFilter R Q → ImuFilter R Q
  unfolding correction_weight
  rest still gyroscope timestep s =
      if still
      then record s {
        gyro_bias =
            l.plus s.gyro_bias
              (l.scale gyroscope (correction_weight l (gyro_bias_tau_s l) timestep));
      }
      else s

  unfoldable pub update : ImuSample R → R → ImuFilter R Q → ImuFilter R Q × FilteredImu R Q
  unfolding low_pass_update filter_magnetometer is_stationary rest update_attitude filtered
  update sample elapsed s =
      let timestep = clamp l.f32 elapsed (min_timestep_s l) (max_timestep_s l) in
      let (slow, accelerometer) = low_pass_update s.accelerometer sample.accelerometer timestep in
      let (fast, rate) = low_pass_update s.gyroscope sample.gyroscope timestep in
      let gyroscope = l.minus rate s.gyro_bias in
      let (field, magnetometer) =
        filter_magnetometer sample.magnetometer timestep
          (record s { accelerometer = slow; gyroscope = fast }) in
      let still = is_stationary l accelerometer gyroscope in
      let s' =
        update_attitude accelerometer gyroscope magnetometer timestep
          (rest still gyroscope timestep field) in
      (s', filtered accelerometer gyroscope magnetometer still s')

  -- The updates of a session, with what each of them gives.
  unfoldable pub run :
      List (ImuSample R × R) → ImuFilter R Q → ImuFilter R Q × List (FilteredImu R Q)
  unfolding update
  run [] s = (s, [])
  run ((sample, elapsed) ∷ samples) s =
      let (s', given) = update sample elapsed s in
      let (end, later) = run samples s' in (end, given ∷ later)
