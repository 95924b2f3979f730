-- ===== src/Imu/Filter/Heading.antt =====
-- When an update gives a heading.
use mathlib.Core.Path.{subst}
use project_emerge_dropbot_f.Prelude.{
  ℕ, zero, suc, ◌+◌, ◌≤◌, ◌≡◌, refl, sym, ap, ◌∙◌, ◌⊎◌, inl, inr, Bool, true, false, if◌then◌else◌,
  Bool-cases, none, some, List, [], ◌∷◌, length, arith,
}
use project_emerge_dropbot_f.Float.Vector.{Vec3}
use project_emerge_dropbot_f.Imu.Sample.{ImuSample}
use project_emerge_dropbot_f.Imu.Maths.{Maths}
use project_emerge_dropbot_f.Imu.Attitude.{heading}
use project_emerge_dropbot_f.Imu.HardIron.{is_usable, observe}
use project_emerge_dropbot_f.Imu.HardIron.Coverage.{
  IsCounted, observe-is_usable, observe-IsCounted, blank-IsCounted, is_usable_le,
}
use project_emerge_dropbot_f.Imu.Filter.{
  ImuFilter, FilteredImu, new, update_attitude, update, run, filtered,
}
use project_emerge_dropbot_f.Imu.Filter.Cases.{update_attitude-cases, update-cases}

-- No heading for so many outputs, and a heading in every later one.
abbrev pub Headings : {R Q : Type 0} → ℕ → List (FilteredImu R Q) → Type 0
Headings n [] = Unit {0}
Headings {R = R} zero (given ∷ later) =
    ((degrees : R) × (given.heading ≡ some degrees)) × Headings 0 later
Headings (suc n) (given ∷ later) = (given.heading ≡ none) × Headings n later

module _ {R Q : Type 0} (l : Maths R Q) where
  update_attitude-hard_iron :
      (accelerometer gyroscope magnetometer : Vec3 R) (timestep : R) (s : ImuFilter R Q)
      → (update_attitude l accelerometer gyroscope magnetometer timestep s).hard_iron ≡ s.hard_iron
  update_attitude-hard_iron accelerometer gyroscope magnetometer timestep s =
      update_attitude-cases l (λ t. t.hard_iron ≡ s.hard_iron) accelerometer gyroscope magnetometer
        timestep s (λ _. refl) (λ _ v _ q. refl) (λ _ q. refl) (λ _ _ q. refl)

  -- An update is one observation of the estimate, and gives a heading where that is usable.
  update-observe :
      (sample : ImuSample R) (elapsed : R) (s : ImuFilter R Q)
      → let (now, given) = update l sample elapsed s in
        ((v : Vec3 R) × (now.hard_iron ≡ observe l v s.hard_iron))
        × (given.heading
            ≡ (if is_usable now.hard_iron then some (heading l now.orientation) else none))
  unfolding filtered
  update-observe sample elapsed s =
      update-cases l
        (λ now given.
          ((v : Vec3 R) × (now.hard_iron ≡ observe l v s.hard_iron))
          × (given.heading
              ≡ (if is_usable now.hard_iron then some (heading l now.orientation) else none)))
        sample elapsed s
        (λ accelerometer gyroscope magnetometer timestep still t p. (
          (
            p.observed.0,
            update_attitude-hard_iron accelerometer gyroscope magnetometer timestep t
                ∙ p.observed.1,
          ),
          refl,
        ))

  update-is_usable :
      (sample : ImuSample R) (elapsed : R) (s : ImuFilter R Q)
      → is_usable s.hard_iron ≡ true
      → is_usable (update l sample elapsed s).0.hard_iron ≡ true
  update-is_usable sample elapsed s e =
      let (v, same) = (update-observe sample elapsed s).0 in
      ap is_usable same ∙ observe-is_usable l v s.hard_iron e

  if_true : {A : Type 0} (b : Bool) (x y : A) → b ≡ true → (if b then x else y) ≡ x
  if_true b x y e = rw e refl

  if_false : {A : Type 0} (b : Bool) (x y : A) → b ≡ false → (if b then x else y) ≡ y
  if_false b x y e = rw e refl

  run-Headings :
      (samples : List (ImuSample R × R)) (s : ImuFilter R Q)
      → is_usable s.hard_iron ≡ true
      → Headings 0 (run l samples s).1
  unfolding run
  run-Headings [] s e = tt
  run-Headings ((sample, elapsed) ∷ samples) s e =
      let now = (update l sample elapsed s).0 in
      let usable = update-is_usable sample elapsed s e in
      (
        (_, (update-observe sample elapsed s).1 ∙ if_true (is_usable now.hard_iron) _ _ usable),
        run-Headings samples now usable,
      )

  counted-Headings :
      (k : ℕ) (samples : List (ImuSample R × R)) (s : ImuFilter R Q)
      → IsCounted k s.hard_iron
      → let given = (run l samples s).1 in
        (n : ℕ) × Headings n given × ((n ≡ length given) ⊎ (8 ≤ n + k))
  unfolding run
  counted-Headings k [] s c = (0, tt, inl refl)
  counted-Headings k ((sample, elapsed) ∷ samples) s c =
      let now = (update l sample elapsed s).0 in
      let ((v, same), given) = update-observe sample elapsed s in
      let counted = subst (IsCounted (suc k)) (sym same) (observe-IsCounted l k v s.hard_iron c) in
      elim (Bool-cases (is_usable now.hard_iron)) [
        | inl usable ↦ (
          0,
          (
            (_, given ∙ if_true (is_usable now.hard_iron) _ _ usable),
            run-Headings samples now usable,
          ),
          inr (omega (arith, counted.votes, is_usable_le now.hard_iron usable)),
        )
        | inr not_yet ↦
            let (n, later, late) = counted-Headings (suc k) samples now counted in
            (
              suc n,
              (given ∙ if_false (is_usable now.hard_iron) _ _ not_yet, later),
              omega (arith, late),
            )
      ]

  -- Of the outputs of a fresh filter, whatever it samples, the first have no heading and all the others
  -- have one: once there is a heading it stays. Where there is one, at least eight had none before.
  pub run-new-Headings :
      (samples : List (ImuSample R × R))
      → let given = (run l samples (new l)).1 in
        (n : ℕ) × Headings n given × ((n ≡ length given) ⊎ (8 ≤ n))
  run-new-Headings samples =
      let (n, given, late) = counted-Headings 0 samples (new l) (blank-IsCounted l) in
      (n, given, omega (arith, late))
