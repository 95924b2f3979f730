-- ===== src/Power.antt =====
-- src/data/power.rs and src/tasks/power_button.rs: the task that owns the power button and the latch
-- that keeps the board supplied. The button pulls its line low. Each wait of the task is a phase, a
-- wake-up ends it, and what the task does is recorded; a wake-up that the task does not wait for
-- leaves it as it is. Log lines are left out.
pub mod Hold
pub mod Latch
mod Tests
use project_emerge_dropbot_f.Prelude.{ℕ, ◌-◌, Bool, true, false, List, [], ◌∷◌, if◌then◌else◌}

pub data ShutdownReason : Type 0 where
  button_held low_battery : ShutdownReason

pub data PowerEvent : Type 0 where
  short_press : PowerEvent
  shutting_down : ShutdownReason → PowerEvent

-- Durations in milliseconds.
abbrev pub power_off_hold : ℕ
power_off_hold = 3000

abbrev pub debounce : ℕ
debounce = 30

abbrev pub power_off_notice : ℕ
power_off_notice = 700

abbrev pub low_battery_notice : ℕ
low_battery_notice = 2000

pub data Phase : Type 0 where
  -- Before the first look at the button.
  booting : Phase
  -- `wait_for_high` for the press that powered the board up, and the pause after it.
  awaiting_release release_pause : Phase
  -- The selection of a press or a shutdown request.
  idle : Phase
  -- The pause after the line went low, the selection of a release or the hold timer, and the pause
  -- after a short press.
  press_pause pressed short_pause : Phase
  -- The awaited `send`, the notice, and the loop after the latch was released.
  announcing noticing : ShutdownReason → Phase
  off : Phase

pub data Wake : Type 0 where
  -- The look at the button when the task starts: whether its line is low.
  started : Bool → Wake
  line_high line_low : Wake
  -- The timer ran out; whether the line is high then.
  timer : Bool → Wake
  requested : ShutdownReason → Wake
  -- The channel took the announcement.
  sent : Wake

pub data Effect : Type 0 where
  set_kill : Bool → Effect
  arm : ℕ → Effect
  try_send : PowerEvent → Effect
  send : PowerEvent → Effect

-- The task, with what it has done, the latest first.
pub record PowerManager : Type 0 where
  pub phase : Phase
  pub effects : List Effect

-- The latch is set before anything else.
unfoldable pub start : PowerManager
start = record { phase = booting; effects = set_kill true ∷ set_kill true ∷ [] }

abbrev pub go : Phase → PowerManager → PowerManager
go p m = record m { phase = p }

abbrev pub act : Effect → PowerManager → PowerManager
act e m = record m { effects = e ∷ m.effects }

abbrev pub notice : ShutdownReason → ℕ
notice button_held = power_off_notice
notice low_battery = low_battery_notice

unfoldable pub wake : Phase → Wake → PowerManager → PowerManager
wake booting (started low) m = go (if low then awaiting_release else idle) m
wake awaiting_release line_high m = go release_pause (act (arm debounce) m)
wake release_pause (timer high) m = go idle m
wake idle line_low m = go press_pause (act (arm debounce) m)
wake idle (requested reason) m = go (announcing reason) m
wake press_pause (timer high) m =
    if high then go idle m else go pressed (act (arm (power_off_hold - debounce)) m)
wake pressed line_high m = go short_pause (act (arm debounce) (act (try_send short_press) m))
wake pressed (timer high) m = go (announcing button_held) m
wake short_pause (timer high) m = go idle m
wake (announcing reason) sent m =
    go (noticing reason) (act (arm (notice reason)) (act (send (shutting_down reason)) m))
wake (noticing reason) (timer high) m = go off (act (set_kill false) m)
wake _ _ m = m

unfoldable pub step : Wake → PowerManager → PowerManager
unfolding wake
step w m = wake m.phase w m

unfoldable pub run : List Wake → PowerManager → PowerManager
unfolding step
run [] m = m
run (w ∷ ws) m = run ws (step w m)
