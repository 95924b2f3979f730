-- ===== src/Battery/Monitor/Requests.antt =====
-- When the monitor asks for a shutdown.
use project_emerge_dropbot_f.Prelude.{
  ◌⊎◌, inl, inr, le_or_lt, Bool-cases, ℕ, zero, suc, ◌≡◌, ◌<◌, true, false, List, [], ◌∷◌, arith,
  Result, ok, err,
}
use project_emerge_dropbot_f.Float.{F32}
use project_emerge_dropbot_f.Power.{low_battery}
use project_emerge_dropbot_f.Battery.{ChargerStatus, is_charging, state_of_charge}
use project_emerge_dropbot_f.Battery.Charger.{Call, Device, init, read_status}
use project_emerge_dropbot_f.Battery.Monitor.{
  Phase, starting, polling, retrying, Effect, send_status, request_shutdown, offer_telemetry, arm,
  Monitor, start, is_low, publish, probed, polled, advance, step, run, telemetry,
}

-- The pack of this status is nearly empty, and nothing charges it.
pub record IsLow (s : ChargerStatus) : Type 0 where
  pub empty : state_of_charge s < 15
  pub draining : is_charging s.state ≡ false

-- Every telemetry is of a status that was sent to the display just before, with a request for a
-- low-battery shutdown between the two exactly where the status is low; and there is no other
-- request. The latest effect comes first.
pub data IsAccounted {R : Type 0} (f : F32 R) : List (Effect R) → Type 0 where
  none_yet : IsAccounted f []
  armed : (ms : ℕ) {es : List (Effect R)} → IsAccounted f es → IsAccounted f (arm ms ∷ es)
  calm :
      (s : ChargerStatus) {es : List (Effect R)}
      → ¬ IsLow s
      → IsAccounted f es
      → IsAccounted f (offer_telemetry (telemetry f s) ∷ send_status s ∷ es)
  low :
      (s : ChargerStatus) {es : List (Effect R)}
      → IsLow s
      → IsAccounted f es
      → IsAccounted f
          (offer_telemetry (telemetry f s) ∷ request_shutdown low_battery ∷ send_status s ∷ es)

is_low-cases :
    (s : ChargerStatus) → (IsLow s × (is_low s ≡ true)) ⊎ ((¬ IsLow s) × (is_low s ≡ false))
unfolding is_low
is_low-cases s = elim (le_or_lt 15 (state_of_charge s)) [
  | inl enough ↦ inr ((λ l. omega (arith, l.empty)), ground arith)
  | inr few ↦ elim (Bool-cases (is_charging s.state)) [
    | inl c ↦ inr ((λ l. cc (l.draining)), ground arith)
    | inr d ↦ inl (record { empty = few; draining = d }, ground arith)
  ]
]

module _ {R : Type 0} (f : F32 R) where
  publish-IsAccounted :
      (s : ChargerStatus) (es : List (Effect R)) → IsAccounted f es → IsAccounted f (publish f s es)
  unfolding publish
  publish-IsAccounted s es v = elim (is_low-cases s) [
    | inl (l, e) ↦ rw e (low s l v)
    | inr (n, e) ↦ rw e (calm s n v)
  ]

  probed-IsAccounted :
      {E : Type 0} (r : List Call × Result E (Unit {0})) (es : List (Effect R))
      → IsAccounted f es
      → IsAccounted f (probed f r es).effects
  unfolding probed
  probed-IsAccounted (cs, ok _) es v = armed _ v
  probed-IsAccounted (cs, err e) es v = armed _ v

  polled-IsAccounted :
      {E : Type 0} (r : List Call × Result E ChargerStatus) (es : List (Effect R))
      → IsAccounted f es
      → IsAccounted f (polled f r es).effects
  unfolding polled
  polled-IsAccounted (cs, ok s) es v = armed _ (publish-IsAccounted s es v)
  polled-IsAccounted (cs, err e) es v = armed _ v

module _ {R E : Type 0} (f : F32 R) (device : Device E) where
  advance-IsAccounted :
      (p : Phase) (m : Monitor R)
      → IsAccounted f m.effects
      → IsAccounted f (advance f device p m).effects
  unfolding advance
  advance-IsAccounted starting m v = probed-IsAccounted f (init device m.calls) m.effects v
  advance-IsAccounted retrying m v = probed-IsAccounted f (init device m.calls) m.effects v
  advance-IsAccounted polling m v = polled-IsAccounted f (read_status device m.calls) m.effects v

  run-IsAccounted :
      (n : ℕ) (m : Monitor R) → IsAccounted f m.effects → IsAccounted f (run f device n m).effects
  unfolding run step
  run-IsAccounted zero m v = v
  run-IsAccounted (suc n) m v =
      run-IsAccounted n (step f device m) (advance-IsAccounted m.phase m v)

  -- Over any number of timers and whatever the charger answers: a shutdown is requested for a status
  -- exactly where its state of charge is below 15 percent and it is not charging, after that status
  -- was sent to the display and before its telemetry is offered, and never otherwise.
  pub run-start-IsAccounted : (n : ℕ) → IsAccounted f (run f device n start).effects
  run-start-IsAccounted n = run-IsAccounted n start none_yet
