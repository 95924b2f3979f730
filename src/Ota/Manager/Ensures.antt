-- ===== src/Ota/Manager/Ensures.antt =====
-- Postconditions of the update's actions: one of the session where the action fails, one of the
-- session and the value where it succeeds, with a rule for a bind and one for a call.
use project_emerge_dropbot_f.Prelude.{
  ◌≡◌, refl, Option, none, some, List, Result, ok, err, map_err, Bool, true, false, if◌then◌else◌,
}
use project_emerge_dropbot_f.Ota.Manager.{
  OtaError, Call, Session, Action, follow, perform, record_call, or_fail,
}

module _ {H J T W : Type 0} where
  abbrev pub Ensures :
      {A : Type 0}
      → (Session W → Type 0)
      → (Session W → A → Type 0)
      → Session W × Result (OtaError H J T) A
      → Type 0
  Ensures P Q (s, ok a) = Q s a
  Ensures P Q (s, err e) = P s

  pub weaken-Ensures :
      {A : Type 0} (P P' : Session W → Type 0) (Q Q' : Session W → A → Type 0)
      (r : Session W × Result (OtaError H J T) A)
      → ((s : Session W) → P s → P' s)
      → ((a : A) (s : Session W) → Q s a → Q' s a)
      → Ensures P Q r
      → Ensures P' Q' r
  weaken-Ensures P P' Q Q' (s, ok a) f g q = g a s q
  weaken-Ensures P P' Q Q' (s, err e) f g p = f s p

  pub follow-Ensures :
      {A B : Type 0} (P : Session W → Type 0) (Q : Session W → A → Type 0)
      (Q' : Session W → B → Type 0) (r : Session W × Result (OtaError H J T) A)
      (k : A → Action H J T W B)
      → Ensures P Q r
      → ((a : A) (s : Session W) → Q s a → Ensures P Q' (k a s))
      → Ensures P Q' (follow r k)
  follow-Ensures P Q Q' (s, ok a) k h g = g a s h
  follow-Ensures P Q Q' (s, err e) k h g = h

  pub reply-Ensures :
      {A E : Type 0} (P : Session W → Type 0) (Q : Session W → A → Type 0)
      (wrap : E → OtaError H J T) (s : Session W) (r : Result E A)
      → P s
      → ((a : A) → r ≡ ok a → Q s a)
      → Ensures P Q (s, map_err wrap r)
  reply-Ensures P Q wrap s (ok a) p q = q a refl
  reply-Ensures P Q wrap s (err e) p q = p

  pub perform-Ensures :
      {A E : Type 0} (P : Session W → Type 0) (Q : Session W → A → Type 0)
      (wrap : E → OtaError H J T) (c : Call) (reply : List Call → Result E A) (s : Session W)
      → P (record_call c s)
      → ((a : A) → reply s.calls ≡ ok a → Q (record_call c s) a)
      → Ensures P Q (perform wrap c reply s)
  perform-Ensures P Q wrap c reply s p q =
      reply-Ensures P Q wrap (record_call c s) (reply s.calls) p q

  pub or_fail-Ensures :
      {A : Type 0} (P : Session W → Type 0) (Q : Session W → A → Type 0) (o : Option A)
      (e : OtaError H J T) (s : Session W)
      → P s
      → ((a : A) → o ≡ some a → Q s a)
      → Ensures P Q (or_fail o e s)
  or_fail-Ensures P Q none e s p q = p
  or_fail-Ensures P Q (some a) e s p q = q a refl

  pub if-Ensures :
      {A : Type 0} (P : Session W → Type 0) (Q : Session W → A → Type 0) (b : Bool)
      (m n : Action H J T W A) (s : Session W)
      → (b ≡ true → Ensures P Q (m s))
      → (b ≡ false → Ensures P Q (n s))
      → Ensures P Q ((if b then m else n) s)
  if-Ensures P Q true m n s p q = p refl
  if-Ensures P Q false m n s p q = q refl
