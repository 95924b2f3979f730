-- ===== src/Imu/NineAxis/Start.antt =====
-- The start of both sensors on the bus that they share, and the order of their reads.
use mathlib.Core.Path.{subst}
use project_emerge_dropbot_f.Prelude.{
  ℕ, ◌<◌, ◌≤◌, ◌≡◌, refl, sym, ap, ◌∙◌, ◌⊎◌, inl, inr, List, length, Result, ok, err, map_err,
}
use project_emerge_dropbot_f.Prelude.Text.{Text}
use project_emerge_dropbot_f.Imu.Bus.{BusCall, Bus, lift}
use project_emerge_dropbot_f.Imu.Bus.Rules.{IfOk, follow-IfOk}
use project_emerge_dropbot_f.Imu.Inertial
use project_emerge_dropbot_f.Imu.Inertial.{address_primary, address_secondary}
use project_emerge_dropbot_f.Imu.Inertial.Part.{replay}
use project_emerge_dropbot_f.Imu.Inertial.Probe.{ProbedAt}
use project_emerge_dropbot_f.Imu.Inertial.Start.{IsConfigured, IsAccepted, init-IsConfigured}
use project_emerge_dropbot_f.Imu.Magnetic
use project_emerge_dropbot_f.Imu.Magnetic.Start.{started, IsIdentified, init-started}
use project_emerge_dropbot_f.Imu.NineAxis.{inertial, magnetic, init}

lift-IfOk :
    {X Y A : Type 0} (wrap : X → Y) (P : List BusCall → A → Type 0) (r : List BusCall × Result X A)
    → IfOk P r
    → IfOk P (r.0, map_err wrap r.1)
lift-IfOk wrap P (cs, ok a) p = p
lift-IfOk wrap P (cs, err e) p = tt

-- The calls to the magnetometer are not for the inertial part.
replay-started :
    (address : ℕ) (cs : List BusCall)
    → (address ≡ address_primary) ⊎ (address ≡ address_secondary)
    → replay address (started cs) ≡ replay address cs
replay-started address cs (inl e) = subst (λ a. replay a (started cs) ≡ replay a cs) (sym e) refl
replay-started address cs (inr e) = subst (λ a. replay a (started cs) ≡ replay a cs) (sym e) refl

module _ {E : Type 0} (bus : Bus E) where
  -- The inertial part at the end of a start, with the magnetometer's calls last.
  abbrev pub BothStarted : Text → ℕ → List BusCall → ℕ → Type 0
  BothStarted config_file i cs address =
      ProbedAt bus (ok address)
      × IsConfigured config_file i (replay address cs)
      × IsAccepted bus address
      × ((before : List BusCall) × (cs ≡ started before) × IsIdentified bus before)

  -- Where the start of the two sensors succeeds, the inertial part is found at one of its addresses and
  -- configured, with every byte of the image in place, and nothing that was said to the magnetometer
  -- afterwards has changed that; the magnetometer has identified itself and was then started as its
  -- calls, the last ones on the bus, show.
  pub init-BothStarted :
      (i : ℕ) (config_file : Text) (cs : List BusCall)
      → length config_file ≤ 8192
      → i < length config_file
      → IfOk (BothStarted config_file i) (init bus config_file cs)
  unfolding init
  init-BothStarted i config_file cs fits inside =
      let Inert : List BusCall → ℕ → Type 0 = λ cs' address.
        ProbedAt bus (ok address)
        × IsConfigured config_file i (replay address cs')
        × IsAccepted bus address in
      follow-IfOk Inert (BothStarted config_file i)
        (lift inertial (Inertial.init bus config_file) cs) _
        (lift-IfOk inertial Inert (Inertial.init bus config_file cs)
          (init-IsConfigured bus i config_file cs fits inside))
        (λ now address (at, configured, accepted).
          follow-IfOk (λ cs' _. (cs' ≡ started now) × IsIdentified bus now)
            (BothStarted config_file i) (lift magnetic (Magnetic.init bus) now) _
            (lift-IfOk magnetic (λ cs' _. (cs' ≡ started now) × IsIdentified bus now)
              (Magnetic.init bus now) (init-started bus now))
            (λ cs' _ (e, identified). (
              at,
              subst (IsConfigured config_file i)
                  (sym (ap (replay address) e ∙ replay-started address now at.0)) configured,
              accepted,
              (now, e, identified),
            )))
