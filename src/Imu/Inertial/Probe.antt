-- ===== src/Imu/Inertial/Probe.antt =====
-- What the probe of the two addresses finds.

use project_emerge_dropbot_f.Prelude.{
  ℕ, ◌≡◌, ◌≢◌, refl, false, Option, none, some, List, [], ◌∷◌, ◌==◌, ==_iff, arith, Result, ok, err,
  ◌⊎◌, inl, inr, if_cases,
}
use project_emerge_dropbot_f.Imu.Bus.{BusCall, write_read, Bus}
use project_emerge_dropbot_f.Imu.Bus.Rules.{IfOk}
use project_emerge_dropbot_f.Imu.Inertial.{
  Bmi270Error, bus_error, init_failed, probe, probe_from, identify, Probed, found, other, chip_id,
  register_chip_id, address_primary, address_secondary,
}

ne : (a b : ℕ) → (a == b) ≡ false → a ≢ b
ne a b e = λ same. ground (arith, e, same)

module _ {E : Type 0} (bus : Bus E) where
  -- A read of a register that the part answered, and its value.
  abbrev pub Answers : ℕ → ℕ → ℕ → Type 0
  Answers address register value =
      (cs : List BusCall) × (buffer : ℕ → ℕ) × (bus.on_read cs
          (write_read address (register ∷ []) 1)
        ≡ ok buffer)
      × (buffer 0 ≡ value)

  abbrev IsSilent : ℕ → Type 0
  IsSilent address =
      (cs : List BusCall) × (e : E) × (bus.on_read cs (write_read address (register_chip_id ∷ []) 1)
        ≡ err e)

  abbrev pub ProbedAt : Result (Bmi270Error E) ℕ → Type 0
  ProbedAt (ok address) =
      ((address ≡ address_primary) ⊎ (address ≡ address_secondary))
      × Answers address register_chip_id chip_id
  ProbedAt (err Bmi270Error.not_found) = IsSilent address_primary × IsSilent address_secondary
  ProbedAt (err (Bmi270Error.wrong_chip_id id)) =
      (id ≢ chip_id)
      × (Answers address_primary register_chip_id id
          ⊎ Answers address_secondary register_chip_id id)
  ProbedAt (err (bus_error e)) = ⊥
  ProbedAt (err (init_failed status)) = ⊥

  -- What the addresses before have answered with: nothing, or a wrong identifier.
  abbrev Seen : Option ℕ → Type 0
  Seen none = IsSilent address_primary
  Seen (some id) = (id ≢ chip_id) × Answers address_primary register_chip_id id

  -- What follows an answer at an address.
  abbrev go_on : ℕ → List ℕ → List BusCall → Probed → List BusCall × Result (Bmi270Error E) ℕ
  go_on address addresses cs found = (cs, ok address)
  go_on address addresses cs (other seen) = probe_from bus addresses seen cs

  second :
      (last_id : Option ℕ) (cs : List BusCall) (r : Result E (ℕ → ℕ))
      → Seen last_id
      → bus.on_read cs (write_read address_secondary (register_chip_id ∷ []) 1) ≡ r
      → ProbedAt
          (go_on address_secondary []
            (write_read address_secondary (register_chip_id ∷ []) 1 ∷ cs)
            (identify last_id r)).1
  unfolding identify probe_from
  second none cs (err e) s r = (s, (cs, e, r))
  second (some id) cs (err e) s r = (s.0, inl s.1)
  second last_id cs (ok id) s r =
      if_cases
        (λ w.
          ProbedAt
            (go_on address_secondary []
              (write_read address_secondary (register_chip_id ∷ []) 1 ∷ cs) w).1)
        (id 0 == chip_id) found (other (some (id 0)))
        (λ e. (inr refl, (cs, id, r, (==_iff (id 0) chip_id).0 e)))
        (λ e. (ne (id 0) chip_id e, inr (cs, id, r, refl)))

  first :
      (cs : List BusCall) (r : Result E (ℕ → ℕ))
      → bus.on_read cs (write_read address_primary (register_chip_id ∷ []) 1) ≡ r
      → ProbedAt
          (go_on address_primary
            (address_secondary ∷ [])
            (write_read address_primary (register_chip_id ∷ []) 1 ∷ cs)
            (identify none r)).1
  unfolding identify probe_from
  first cs (err e) r = second none _ (bus.on_read _ _) (cs, e, r) refl
  first cs (ok id) r =
      if_cases
        (λ w.
          ProbedAt
            (go_on address_primary (address_secondary ∷ [])
              (write_read address_primary (register_chip_id ∷ []) 1 ∷ cs) w).1)
        (id 0 == chip_id) found (other (some (id 0)))
        (λ e. (inl refl, (cs, id, r, (==_iff (id 0) chip_id).0 e)))
        (λ e.
          second (some (id 0)) _ (bus.on_read _ _) (ne (id 0) chip_id e, (cs, id, r, refl)) refl)

  -- The probe succeeds with one of the two addresses of the part, where it has answered with the
  -- right identifier; it finds nothing only where both addresses failed, and gives a wrong identifier
  -- only where an address answered with it.
  pub probe-ProbedAt : (cs : List BusCall) → ProbedAt (probe bus cs).1
  unfolding probe probe_from
  probe-ProbedAt cs =
      first cs (bus.on_read cs (write_read address_primary (register_chip_id ∷ []) 1)) refl

  pub probe-IfOk :
      (r : List BusCall × Result (Bmi270Error E) ℕ)
      → ProbedAt r.1
      → IfOk (λ _ address. ProbedAt (ok address)) r
  probe-IfOk (cs, ok address) p = p
  probe-IfOk (cs, err e) p = tt
