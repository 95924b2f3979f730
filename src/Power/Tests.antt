-- ===== src/Power/Tests.antt =====
-- Two lives of the board. In the first the power-on press is released, the button is pressed shortly, and then the
-- pack runs low.
use project_emerge_dropbot_f.Prelude.{◌≡◌, refl, true, false, List, [], ◌∷◌}
use project_emerge_dropbot_f.Power.{
  low_battery, off, Wake, started, line_high, line_low, timer, requested, sent, start, run,
}
use project_emerge_dropbot_f.Power.Latch.{IsLatched, run-start-IsLatched}

abbrev life : List Wake
life =
    started true
    ∷ line_high
    ∷ timer true
    ∷ line_low
    ∷ timer false
    ∷ line_high
    ∷ timer true
    ∷ requested low_battery
    ∷ sent
    ∷ timer true
    ∷ []

life_ends : (run life start).phase ≡ off
unfolding run start
life_ends = refl

run-start-IsLatched_example : IsLatched (run life start).phase (run life start).effects
run-start-IsLatched_example = run-start-IsLatched life

-- The button is held until the supply is cut.
abbrev hold : List Wake
hold = started false ∷ line_low ∷ timer false ∷ timer false ∷ sent ∷ timer true ∷ []
