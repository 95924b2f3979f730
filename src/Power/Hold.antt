-- ===== src/Power/Hold.antt =====
-- How long the button is held before it ends the supply.
use project_emerge_dropbot_f.Prelude.{ℕ, ◌+◌, ◌≡◌, ◌≢◌, ◌⊎◌, false, List, [], ◌∷◌}
use project_emerge_dropbot_f.Power.{
  button_held, low_battery, shutting_down, Phase, press_pause, pressed, announcing, noticing, off,
  Wake, requested, Effect, set_kill, arm, send,
}

-- The last acts were to arm two timers of three seconds together; no menu press came in between.
pub record HeldLong (es : List Effect) : Type 0 where
  pub long : ℕ
  pub short : ℕ
  pub before : List Effect
  pub armed : es ≡ arm long ∷ arm short ∷ before
  pub three_seconds : long + short ≡ 3000

-- A farewell of the button, with its notice of 0.7 s, comes after such a hold.
abbrev pub ByButton : List Effect → Type 0
ByButton es =
    (before : List Effect) × (es ≡ arm 700 ∷ send (shutting_down button_held) ∷ before)
    × HeldLong before

-- A farewell of the low pack, with its notice of 2 s.
abbrev pub ByBattery : List Effect → Type 0
ByBattery es = (before : List Effect) × (es ≡ arm 2000 ∷ send (shutting_down low_battery) ∷ before)

-- What holds at each phase.
abbrev pub IsHeld : Phase → List Effect → Type 0
IsHeld press_pause es = (before : List Effect) × (es ≡ arm 30 ∷ before)
IsHeld pressed es = HeldLong es
IsHeld (announcing button_held) es = HeldLong es
IsHeld (noticing button_held) es = ByButton es
IsHeld (noticing low_battery) es = ByBattery es
IsHeld off es =
    (last : List Effect) × (es ≡ set_kill false ∷ last) × (ByButton last ⊎ ByBattery last)
IsHeld _ es = Unit {0}

-- Only the task itself speaks for the button.
abbrev pub IsOthers : List Wake → Type 0
IsOthers [] = Unit {0}
IsOthers (w ∷ ws) = (w ≢ requested button_held) × IsOthers ws
