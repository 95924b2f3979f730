-- ===== src/Imu/HardIron/Coverage.antt =====
-- How much of the circle the estimate has covered.
use mathlib.Core.Path.{subst}
use project_emerge_dropbot_f.Prelude.{
  ℕ, suc, ◌+◌, ◌-◌, ◌≤◌, ◌<◌, ◌≡◌, true, false, not, List, [], ◌∷◌, length, leb, leb→le, if_cases,
  not-true, not-false, ◌⊎◌, inl, inr, arith, Bool-cases,
}
use project_emerge_dropbot_f.Float.Vector.{Vec3}
use project_emerge_dropbot_f.Imu.Maths.{Maths}
use project_emerge_dropbot_f.Imu.Attitude.{hypot}
use project_emerge_dropbot_f.Imu.HardIron.{
  HardIron, count_ones, vote, is_usable, hard_iron_sectors_required, blank, widened, voted,
  sector_of, observe, observe_all, hard_iron_min_radius_ut, offset,
}
use project_emerge_dropbot_f.Imu.HardIron.Sectors.{
  count_ones-bit_or, count_ones-vote, vote_bound, count_ones_bound,
}

abbrev pub covered : {R : Type 0} → HardIron R → ℕ
covered h = count_ones 16 h.sectors

vote-count_ones : (sectors sector : ℕ) → count_ones 16 sectors ≤ count_ones 16 (vote sectors sector)
unfolding vote
vote-count_ones sectors sector = count_ones-bit_or 16 sectors _

le→leb : (a b : ℕ) → a ≤ b → leb a b ≡ true
le→leb a b h = ground arith

pub is_usable_le :
    {R : Type 0} (h : HardIron R) → is_usable h ≡ true → hard_iron_sectors_required ≤ covered h
unfolding is_usable
is_usable_le h e = leb→le _ _ e

le_is_usable :
    {R : Type 0} (h : HardIron R) → hard_iron_sectors_required ≤ covered h → is_usable h ≡ true
unfolding is_usable
le_is_usable h e = le→leb _ _ e

module _ {R Q : Type 0} (l : Maths R Q) where
  voted-cases :
      (P : HardIron R → Type 0) (h : HardIron R) (centred : Vec3 R)
      → P h
      → ((sector : ℕ) → P (record h { sectors = vote h.sectors sector }))
      → P (voted l h centred)
  unfolding voted
  voted-cases P h centred silent counted =
      let far = l.f32.le (hard_iron_min_radius_ut l) (hypot l centred.x centred.y) in
      let sector = sector_of l centred in
      if_cases P far (record h { sectors = vote h.sectors sector }) h (λ _. counted sector)
        (λ _. silent)

  -- What an observation gives: the box of one sample, or a wider box, with a vote or without.
  pub observe-cases :
      (P : HardIron R → Type 0) (sample : Vec3 R) (h : HardIron R)
      → (h.seen ≡ false → P (record h { min = sample; max = sample; seen = true }))
      → (h.seen ≡ true → P (widened l h sample))
      → (h.seen ≡ true
          → (sector : ℕ) → P (record (widened l h sample) { sectors = vote h.sectors sector }))
      → P (observe l sample h)
  unfolding observe
  observe-cases P sample h first silent counted =
      if_cases P (not h.seen) (record h { min = sample; max = sample; seen = true })
        (voted l (widened l h sample) (l.minus sample (offset l (widened l h sample))))
        (λ e. first (not-true h.seen e))
        (λ e.
          voted-cases P (widened l h sample) (l.minus sample (offset l (widened l h sample)))
            (silent (not-false h.seen e)) (counted (not-false h.seen e)))

  observe-covered : (sample : Vec3 R) (h : HardIron R) → covered h ≤ covered (observe l sample h)
  observe-covered sample h =
      observe-cases (λ now. covered h ≤ covered now) sample h (λ _. omega arith) (λ _. omega arith)
        (λ _ sector. vote-count_ones h.sectors sector)

  pub observe-is_usable :
      (sample : Vec3 R) (h : HardIron R)
      → is_usable h ≡ true
      → is_usable (observe l sample h) ≡ true
  observe-is_usable sample h e =
      le_is_usable (observe l sample h) (omega (arith, is_usable_le h e, observe-covered sample h))

  -- Once the estimate is usable it stays so, whatever is observed.
  pub observe_all-is_usable :
      (samples : List (Vec3 R)) (h : HardIron R)
      → is_usable h ≡ true
      → is_usable (observe_all l samples h) ≡ true
  unfolding observe_all
  observe_all-is_usable [] h e = e
  observe_all-is_usable (sample ∷ samples) h e =
      observe_all-is_usable samples (observe l sample h) (observe-is_usable sample h e)

-- What holds after at most so many samples: only the twelve sectors, and of them at most as many as
-- there are samples after the first.
pub record IsCounted {R : Type 0} (n : ℕ) (h : HardIron R) : Type 0 where
  pub sectors_bound : h.sectors < 4096
  pub votes : covered h ≤ n - 1
  pub some_seen : h.seen ≡ true → 1 ≤ n

module _ {R Q : Type 0} (l : Maths R Q) where
  pub observe-IsCounted :
      (n : ℕ) (sample : Vec3 R) (h : HardIron R)
      → IsCounted n h
      → IsCounted (suc n) (observe l sample h)
  observe-IsCounted n sample h c =
      observe-cases l (IsCounted (suc n)) sample h
        (λ _. record {
          sectors_bound = c.sectors_bound;
          votes = omega (arith, c.votes);
          some_seen = λ _. omega arith;
        })
        (λ seen. record {
          sectors_bound = c.sectors_bound;
          votes = omega (arith, c.votes);
          some_seen = λ _. omega arith;
        })
        (λ seen sector. record {
          sectors_bound = vote_bound h.sectors sector c.sectors_bound;
          votes = omega (arith, c.votes, c.some_seen seen, count_ones-vote h.sectors sector);
          some_seen = λ _. omega arith;
        })

  observe_all-IsCounted :
      (n : ℕ) (samples : List (Vec3 R)) (h : HardIron R)
      → IsCounted n h
      → IsCounted (n + length samples) (observe_all l samples h)
  unfolding observe_all
  observe_all-IsCounted n [] h c = subst (λ n. IsCounted n h) (omega arith) c
  observe_all-IsCounted n (sample ∷ samples) h c =
      subst (λ m. IsCounted m (observe_all l samples (observe l sample h))) (omega arith)
        (observe_all-IsCounted (suc n) samples (observe l sample h)
          (observe-IsCounted n sample h c))

  pub blank-IsCounted : IsCounted 0 (blank l)
  unfolding count_ones
  blank-IsCounted = record {
    sectors_bound = omega arith;
    votes = omega arith;
    some_seen = λ e. ground (arith, e);
  }

  -- From a fresh estimate, after any samples: the votes are for the twelve sectors only, and there are
  -- fewer of them than samples, so that an estimate that is usable has seen nine samples or more.
  pub observe_all-covered :
      (samples : List (Vec3 R))
      → let h = observe_all l samples (blank l) in
        (h.sectors < 4096)
        × (covered h ≤ 12)
        × (covered h ≤ length samples - 1)
        × ((is_usable h ≡ false) ⊎ (9 ≤ length samples))
  observe_all-covered samples =
      let h = observe_all l samples (blank l) in
      let c = observe_all-IsCounted 0 samples (blank l) blank-IsCounted in
      (
        c.sectors_bound,
        count_ones_bound 16 12 h.sectors c.sectors_bound,
        omega (arith, c.votes),
        elim (Bool-cases (is_usable h)) [
          | inl e ↦ inr (omega (arith, c.votes, is_usable_le h e))
          | inr e ↦ inl e
        ],
      )
