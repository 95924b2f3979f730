-- ===== src/Display/Driver/Tests.antt =====
-- A start that fails, and what follows.
use project_emerge_dropbot_f.Prelude.{ℕ, List, [], ◌∷◌, ok, err}
use project_emerge_dropbot_f.Network.Heapless.{list_heapless}
use project_emerge_dropbot_f.Display.Controller.{notice_screen, power_off_title, power_off_message}
use project_emerge_dropbot_f.Display.Driver.{
  Operation, init_panel, draw_screen, new, run, Lives, run-Lives,
}

abbrev later : List (Operation ℕ)
later =
    draw_screen (notice_screen power_off_title power_off_message) (ok tt) ∷ init_panel (ok tt) ∷ []

run-Lives_example :
    Lives list_heapless (err 4) later (run list_heapless (init_panel (err 4) ∷ later) new)
run-Lives_example = run-Lives list_heapless (err 4) later
