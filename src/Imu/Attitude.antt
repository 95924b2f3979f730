-- ===== src/Imu/Attitude.antt =====
-- src/data/imu.rs: the constants, the tests on a reading, angles in degrees, and the attitude as a
-- rotation from the frame of the board to the world's.
use project_emerge_dropbot_f.Prelude.{ℕ, Bool, ◌&&◌, if◌then◌else◌}
use project_emerge_dropbot_f.Float
use project_emerge_dropbot_f.Float.Vector.{Vec3}
use project_emerge_dropbot_f.Imu.Maths.{Maths}

module _ {R Q : Type 0} (l : Maths R Q) where
  abbrev num : ℕ → ℕ → R
  num = l.f32.literal

  abbrev pub zero : R
  zero = Float.zero l.f32

  abbrev pub gravity : R
  gravity = num 980665 100000

  abbrev pub degrees_per_radian : R
  degrees_per_radian = l.f32.div (num 180 1) l.pi

  abbrev pub radians_per_degree : R
  radians_per_degree = l.f32.div l.pi (num 180 1)

  abbrev pub zero_vector : Vec3 R
  zero_vector = record { x = zero; y = zero; z = zero }

  abbrev pub world_up : Vec3 R
  world_up = record { x = zero; y = zero; z = Float.one l.f32 }

  abbrev pub forward : Vec3 R
  forward = record { x = Float.one l.f32; y = zero; z = zero }

  abbrev pub accelerometer_cutoff_hz : R
  accelerometer_cutoff_hz = num 20 1

  abbrev pub gyroscope_cutoff_hz : R
  gyroscope_cutoff_hz = num 30 1

  abbrev pub magnetometer_cutoff_hz : R
  magnetometer_cutoff_hz = num 5 1

  abbrev pub gyro_bias_tau_s : R
  gyro_bias_tau_s = num 10 1

  abbrev pub still_rate_dps : R
  still_rate_dps = num 15 10

  abbrev pub still_acceleration_tolerance : R
  still_acceleration_tolerance = num 35 100

  abbrev pub gravity_correction_tau_s : R
  gravity_correction_tau_s = num 3 1

  abbrev pub heading_correction_tau_s : R
  heading_correction_tau_s = num 10 1

  abbrev pub gravity_reference_tolerance : R
  gravity_reference_tolerance = num 15 10

  abbrev pub min_timestep_s : R
  min_timestep_s = num 5 10000

  abbrev pub max_timestep_s : R
  max_timestep_s = num 2 10

  unfoldable pub correction_weight : R → R → R
  correction_weight tau_s timestep = l.f32.div timestep (l.f32.add tau_s timestep)

  unfoldable pub is_stationary : Vec3 R → Vec3 R → Bool
  is_stationary accelerometer gyroscope =
      l.f32.lt (l.max_element (l.abs gyroscope)) still_rate_dps
      && l.f32.lt (l.f32.abs (l.f32.sub (l.length accelerometer) gravity))
          still_acceleration_tolerance

  unfoldable pub gravity_is_trustworthy : Vec3 R → Bool
  gravity_is_trustworthy accelerometer =
      l.f32.lt (l.f32.abs (l.f32.sub (l.length accelerometer) gravity)) gravity_reference_tolerance

  unfoldable pub wrap_360 : R → R
  wrap_360 degrees =
      let wrapped = l.rem degrees (num 360 1) in
      if l.f32.lt wrapped zero then l.f32.add wrapped (num 360 1) else wrapped

  unfoldable pub wrap_180 : R → R
  unfolding wrap_360
  wrap_180 degrees =
      let wrapped = wrap_360 degrees in
      if l.f32.le (num 180 1) wrapped then l.f32.sub wrapped (num 360 1) else wrapped

  -- `sqrtf` of the sum of two squares.
  abbrev pub hypot : R → R → R
  hypot a b = l.sqrt (l.f32.add (l.f32.mul a a) (l.f32.mul b b))

  unfoldable pub to_body : Q → Vec3 R → Vec3 R
  to_body q world = l.rotate (l.conjugate q) world

  unfoldable pub to_world : Q → Vec3 R → Vec3 R
  to_world q body = l.rotate q body

  unfoldable pub from_board_euler : R → R → R → Q
  from_board_euler roll pitch heading =
      l.compose
        (l.compose (l.from_rotation_z (l.f32.mul (l.f32.neg heading) radians_per_degree))
          (l.from_rotation_y (l.f32.mul pitch radians_per_degree)))
        (l.from_rotation_x (l.f32.mul roll radians_per_degree))

  -- The angles that an upward direction in the board's frame stands for.
  abbrev pub roll_of : Vec3 R → R
  roll_of up = l.f32.mul (l.atan2 up.y up.z) degrees_per_radian

  abbrev pub pitch_of : Vec3 R → R
  pitch_of up = l.f32.mul (l.atan2 (l.f32.neg up.x) (hypot up.y up.z)) degrees_per_radian

  unfoldable pub from_gravity : Vec3 R → Q
  unfolding from_board_euler
  from_gravity up_in_body = from_board_euler (roll_of up_in_body) (pitch_of up_in_body) zero

  unfoldable pub roll_pitch : Q → R × R
  unfolding to_body
  roll_pitch q = (roll_of (to_body q world_up), pitch_of (to_body q world_up))

  unfoldable pub with_heading : Q → R → Q
  unfolding from_board_euler roll_pitch
  with_heading q heading = from_board_euler (roll_pitch q).0 (roll_pitch q).1 heading

  unfoldable pub integrated : Q → Vec3 R → R → Q
  integrated q rate_dps timestep =
      l.normalize
        (l.compose q (l.from_scaled_axis (l.scale (l.scale rate_dps radians_per_degree) timestep)))

  unfoldable pub heading : Q → R
  unfolding to_world wrap_360
  heading q =
      let nose = to_world q forward in
      wrap_360 (l.f32.mul (l.atan2 (l.f32.neg nose.y) nose.x) degrees_per_radian)
