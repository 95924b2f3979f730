-- ===== src/Imu/Bus/Rules.antt =====
-- What an action ensures where it succeeds, with a rule for each way that actions are composed.
use project_emerge_dropbot_f.Prelude.{
  ℕ, ◌≡◌, refl, Bool, true, false, if◌then◌else◌, List, ◌∷◌, Result, ok, err, map_err,
}
use project_emerge_dropbot_f.Prelude.Text.{Text}
use project_emerge_dropbot_f.Imu.Bus.{
  BusCall, write, write_read, Bus, Action, follow, write_bus, read_bus,
}

abbrev pub IfOk : {X A : Type 0} → (List BusCall → A → Type 0) → List BusCall × Result X A → Type 0
IfOk P (cs, ok a) = P cs a
IfOk P (cs, err e) = Unit {0}

pub weaken-IfOk :
    {X A : Type 0} (P Q : List BusCall → A → Type 0) (r : List BusCall × Result X A)
    → ((cs : List BusCall) (a : A) → P cs a → Q cs a)
    → IfOk P r
    → IfOk Q r
weaken-IfOk P Q (cs, ok a) h p = h cs a p
weaken-IfOk P Q (cs, err e) h p = tt

module _ {X A B : Type 0} (P : List BusCall → A → Type 0) (Q : List BusCall → B → Type 0) where
  pub follow-IfOk :
      (r : List BusCall × Result X A) (k : A → Action X B)
      → IfOk P r
      → ((cs : List BusCall) (a : A) → P cs a → IfOk Q (k a cs))
      → IfOk Q (follow r k)
  follow-IfOk (cs, ok a) k p next = next cs a p
  follow-IfOk (cs, err e) k p next = tt

module _ {E X B : Type 0} (bus : Bus E) (wrap : E → X) (Q : List BusCall → B → Type 0) where
  reply-IfOk :
      {A : Type 0} (cs : List BusCall) (r : Result E A) (k : A → Action X B)
      → ((a : A) → r ≡ ok a → IfOk Q (k a cs))
      → IfOk Q (follow (cs, map_err wrap r) k)
  reply-IfOk cs (ok a) k next = next a refl
  reply-IfOk cs (err e) k next = tt

  pub write-IfOk :
      (address : ℕ) (bytes : Text) (k : Action X B) (cs : List BusCall)
      → IfOk Q (k (write address bytes ∷ cs))
      → IfOk Q (follow (write_bus bus wrap address bytes cs) (λ _. k))
  write-IfOk address bytes k cs next =
      reply-IfOk (write address bytes ∷ cs) (bus.on_write cs (write address bytes)) (λ _. k)
        (λ _ _. next)

  pub read-IfOk :
      (address : ℕ) (bytes : Text) (count : ℕ) (k : (ℕ → ℕ) → Action X B) (cs : List BusCall)
      → ((buffer : ℕ → ℕ)
          → bus.on_read cs (write_read address bytes count) ≡ ok buffer
          → IfOk Q (k buffer (write_read address bytes count ∷ cs)))
      → IfOk Q (follow (read_bus bus wrap address bytes count cs) k)
  read-IfOk address bytes count k cs next =
      reply-IfOk (write_read address bytes count ∷ cs)
        (bus.on_read cs (write_read address bytes count)) k next

pub if-IfOk :
    {X A : Type 0} (Q : List BusCall → A → Type 0) (b : Bool) (m n : Action X A) (cs : List BusCall)
    → (b ≡ true → IfOk Q (m cs))
    → (b ≡ false → IfOk Q (n cs))
    → IfOk Q ((if b then m else n) cs)
if-IfOk Q true m n cs p q = p refl
if-IfOk Q false m n cs p q = q refl
