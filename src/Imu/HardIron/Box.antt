-- ===== src/Imu/HardIron/Box.antt =====
-- The box of the estimate holds what has been observed.
use project_emerge_dropbot_f.Prelude.{◌≡◌, refl, sym, ◌∙◌, true≢false, true, List, [], ◌∷◌}
use project_emerge_dropbot_f.Float.Vector.{Vec3}
use project_emerge_dropbot_f.Imu.Maths.{Maths, IsOrdered}
use project_emerge_dropbot_f.Imu.HardIron.{HardIron, blank, widened, observe, observe_all}
use project_emerge_dropbot_f.Imu.HardIron.Coverage.{observe-cases}

module _ {R Q : Type 0} (l : Maths R Q) where
  abbrev le : R → R → Type 0
  le a b = l.f32.le a b ≡ true

  abbrev Between : R → R → R → Type 0
  Between low high a = le low a × le a high

  -- No component is a NaN.
  abbrev pub IsNumbers : Vec3 R → Type 0
  IsNumbers v = le v.x v.x × le v.y v.y × le v.z v.z

  abbrev pub IsInside : HardIron R → Vec3 R → Type 0
  IsInside h v =
      Between h.min.x h.max.x v.x × Between h.min.y h.max.y v.y × Between h.min.z h.max.z v.z

  -- Every vector of a list.
  abbrev pub Each : (Vec3 R → Type 0) → List (Vec3 R) → Type 0
  Each P [] = Unit {0}
  Each P (v ∷ vs) = P v × Each P vs

  abbrev IsSound : HardIron R → Type 0
  IsSound h = IsNumbers h.min × IsNumbers h.max

  -- The box of an estimate is what counts.
  abbrev Widens : HardIron R → Vec3 R → HardIron R → Type 0
  Widens h sample now =
      (IsSound h → IsNumbers sample → IsSound now × IsInside now sample)
      × ((v : Vec3 R) → IsSound h → IsNumbers sample → IsInside h v → IsInside now v)

  module _ (o : IsOrdered l) where
    -- One axis of a box that is widened by a number.
    axis_holds :
        (low high a : R)
        → le low low
        → le high high
        → le a a
        → Between (l.min low a) (l.max high a) a
    axis_holds low high a m n p = (o.min_right low a m p, o.max_right high a n p)

    axis_keeps :
        (low high a b : R)
        → le low low
        → le high high
        → le a a
        → Between low high b
        → Between (l.min low a) (l.max high a) b
    axis_keeps low high a b m n p (c, d) =
        (o.le_trans _ low b (o.min_left low a m p) c, o.le_trans b high _ d (o.max_left high a n p))

    widened-Widens : (h : HardIron R) (sample : Vec3 R) → Widens h sample (widened l h sample)
    widened-Widens h sample = (
      λ (s, t) p. (
        (
          (o.min_number _ _ s.0 p.0, o.min_number _ _ s.1 p.1, o.min_number _ _ s.2 p.2),
          (o.max_number _ _ t.0 p.0, o.max_number _ _ t.1 p.1, o.max_number _ _ t.2 p.2),
        ),
        (axis_holds _ _ _ s.0 t.0 p.0, axis_holds _ _ _ s.1 t.1 p.1, axis_holds _ _ _ s.2 t.2 p.2),
      ),
      λ v (s, t) p i. (
        axis_keeps _ _ _ _ s.0 t.0 p.0 i.0,
        axis_keeps _ _ _ _ s.1 t.1 p.1 i.1,
        axis_keeps _ _ _ _ s.2 t.2 p.2 i.2,
      ),
    )

    observe-Widens :
        (h : HardIron R) (sample : Vec3 R)
        → h.seen ≡ true
        → Widens h sample (observe l sample h) × ((observe l sample h).seen ≡ true)
    observe-Widens h sample seen =
        observe-cases l (λ now. Widens h sample now × (now.seen ≡ true)) sample h
          (λ e. absurd (true≢false (sym seen ∙ e))) (λ e. (widened-Widens h sample, e))
          (λ e sector. (widened-Widens h sample, e))

    -- Further samples keep what is inside, and are inside themselves.
    observe_all-Each :
        (samples : List (Vec3 R)) (h : HardIron R)
        → h.seen ≡ true
        → IsSound h
        → Each IsNumbers samples
        → ((v : Vec3 R) → IsInside h v → IsInside (observe_all l samples h) v)
          × Each (IsInside (observe_all l samples h)) samples
    unfolding observe_all
    observe_all-Each [] h seen sound numbers = (λ v i. i, tt)
    observe_all-Each (sample ∷ samples) h seen sound (p, ps) =
        let ((holds, keeps), still) = observe-Widens h sample seen in
        let rest = observe_all-Each samples (observe l sample h) still (holds sound p).0 ps in
        (λ v i. rest.0 v (keeps v sound p i), (rest.0 sample (holds sound p).1, rest.1))

    -- From a fresh estimate, after any samples of which no component is a NaN, every one of them lies in
    -- the box, on each axis.
    pub observe_all-IsInside :
        (samples : List (Vec3 R))
        → Each IsNumbers samples
        → Each (IsInside (observe_all l samples (blank l))) samples
    unfolding observe_all observe
    observe_all-IsInside [] numbers = tt
    observe_all-IsInside (sample ∷ samples) (p, ps) =
        let rest = observe_all-Each samples (observe l sample (blank l)) refl (p, p) ps in
        (rest.0 sample ((p.0, p.0), (p.1, p.1), (p.2, p.2)), rest.1)
