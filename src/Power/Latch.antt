-- ===== src/Power/Latch.antt =====
-- The latch and the announcements over the life of the task.
use mathlib.Core.Path.{subst}
use project_emerge_dropbot_f.Prelude.{
  ◌≡◌, refl, Bool, true, false, List, [], ◌∷◌, ◌++◌, arith, ap, sym, ◌∙◌, ◌≢◌,
}
use project_emerge_dropbot_f.Power.{
  ShutdownReason, short_press, shutting_down, Phase, booting, awaiting_release, release_pause, idle,
  press_pause, pressed, short_pause, announcing, noticing, off, Wake, started, line_high, line_low,
  timer, requested, sent, Effect, set_kill, arm, try_send, send, PowerManager, start, go, notice,
  debounce, wake, step, run,
}

-- The level of the latch that a sequence of effects leaves.
abbrev pub is_latched : List Effect → Bool
is_latched [] = false
is_latched (set_kill high ∷ es) = high
is_latched (arm ms ∷ es) = is_latched es
is_latched (try_send e ∷ es) = is_latched es
is_latched (send e ∷ es) = is_latched es

-- Whether some shutdown has been announced.
abbrev pub has_announced : List Effect → Bool
has_announced [] = false
has_announced (send (shutting_down r) ∷ es) = true
has_announced (send short_press ∷ es) = has_announced es
has_announced (set_kill high ∷ es) = has_announced es
has_announced (arm ms ∷ es) = has_announced es
has_announced (try_send e ∷ es) = has_announced es

-- The effects of a shutdown, the latest first: the announcement, its notice, the end of the supply.
abbrev pub goodbye : ShutdownReason → List Effect → List Effect
goodbye r es = arm (notice r) ∷ send (shutting_down r) ∷ es

-- What holds at each phase: the supply is latched and nothing is announced up to the announcement;
-- during a notice the announcement and its timer are the last effects, with the latch still set; and
-- the supply is cut only after that.
abbrev pub IsLatched : Phase → List Effect → Type 0
IsLatched (noticing r) es =
    (before : List Effect) × (es ≡ goodbye r before)
    × (is_latched before ≡ true)
    × (has_announced before ≡ false)
IsLatched off es =
    (r : ShutdownReason) × (before : List Effect) × (es ≡ set_kill false ∷ goodbye r before)
    × (is_latched before ≡ true)
    × (has_announced before ≡ false)
IsLatched _ es = (is_latched es ≡ true) × (has_announced es ≡ false)

wake-IsLatched :
    (p : Phase) (w : Wake) (m : PowerManager)
    → m.phase ≡ p
    → IsLatched p m.effects
    → IsLatched (wake p w m).phase (wake p w m).effects
unfolding wake
wake-IsLatched booting (started true) m e v = v
wake-IsLatched booting (started false) m e v = v
wake-IsLatched awaiting_release line_high m e v = v
wake-IsLatched release_pause (timer high) m e v = v
wake-IsLatched idle line_low m e v = v
wake-IsLatched idle (requested reason) m e v = v
wake-IsLatched press_pause (timer true) m e v = v
wake-IsLatched press_pause (timer false) m e v = v
wake-IsLatched pressed line_high m e v = v
wake-IsLatched pressed (timer high) m e v = v
wake-IsLatched short_pause (timer high) m e v = v
wake-IsLatched (announcing reason) sent m e v = (m.effects, refl, v.0, v.1)
wake-IsLatched (noticing reason) (timer high) m e (before, last, latched, quiet) =
    (reason, before, ap (◌∷◌ (set_kill false)) last, latched, quiet)
wake-IsLatched _ _ m e v = subst (λ q. IsLatched q m.effects) (sym e) v

run-IsLatched :
    (ws : List Wake) (m : PowerManager)
    → IsLatched m.phase m.effects
    → IsLatched (run ws m).phase (run ws m).effects
unfolding run
run-IsLatched [] m v = v
run-IsLatched (w ∷ ws) m v = run-IsLatched ws (step w m) (wake-IsLatched m.phase w m refl v)

-- Whatever the button, the timers and the monitors do, in any order: the supply stays latched and no
-- shutdown is announced until one is begun; while its notice runs the supply is still latched; and
-- the supply is cut only as the last act, directly after the announcement and its notice timer.
pub run-start-IsLatched : (ws : List Wake) → IsLatched (run ws start).phase (run ws start).effects
unfolding start
run-start-IsLatched ws = run-IsLatched ws start (refl, refl)

-- Once the supply is cut nothing wakes the task: it does nothing more, for any further wake-ups.
pub run_off : (ws : List Wake) (m : PowerManager) → m.phase ≡ off → run ws m ≡ m
unfolding run
run_off [] m e = refl
run_off (w ∷ ws) m e = ground (arith, run_off ws m e)

run-append : (ws vs : List Wake) (m : PowerManager) → run (ws ++ vs) m ≡ run vs (run ws m)
unfolding run
run-append [] vs m = refl
run-append (w ∷ ws) vs m = run-append ws vs (step w m)

-- No wake-up of the list is the release of the button.
abbrev pub IsUnreleased : List Wake → Type 0
IsUnreleased [] = Unit {0}
IsUnreleased (w ∷ ws) = (w ≢ line_high) × IsUnreleased ws

run_unreleased :
    (ws : List Wake) (m : PowerManager)
    → m.phase ≡ awaiting_release
    → IsUnreleased ws
    → run ws m ≡ m
unfolding run
run_unreleased [] m e u = refl
run_unreleased (w ∷ ws) m e u = ground (arith, run_unreleased ws m e u.1)

-- The press that powers the board up is neither a menu press nor a hold: whatever wakes the task
-- while the button is still down, the release ends in the idle wait with nothing sent.
pub power_on_press :
    (ws : List Wake) (up : Bool)
    → IsUnreleased ws
    → run (started true ∷ (ws ++ line_high ∷ timer up ∷ [])) start
      ≡ record { phase = idle; effects = arm debounce ∷ start.effects }
unfolding run start
power_on_press ws up u =
    run-append ws (line_high ∷ timer up ∷ []) (go awaiting_release start)
    ∙ ap (run (line_high ∷ timer up ∷ [])) (run_unreleased ws (go awaiting_release start) refl u)
