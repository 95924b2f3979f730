-- ===== src/Display/Screens/Tests.antt =====
-- The page of a battery, and what a temperature below zero looks like.
use project_emerge_dropbot_f.Prelude.{◌≡◌, refl, arith}
use project_emerge_dropbot_f.Prelude.Int.{negsuc}
use project_emerge_dropbot_f.Prelude.Text.{codes, decimal, decimal_2}
use project_emerge_dropbot_f.Network.Heapless.{list_heapless, write_pieces, list_push}
use project_emerge_dropbot_f.Display.Controller.{notice_screen, power_off_title, power_off_message}
use project_emerge_dropbot_f.Display.Screens.{
  format_volts, decimal_ℤ, tenth, version_label, screen_calls,
}
use project_emerge_dropbot_f.Display.Screens.Fit.{AllOnPanel, screen_calls-AllOnPanel}

volts : format_volts list_heapless 8127 ≡ codes "8.12V"
unfolding format_volts decimal decimal_2 write_pieces list_push
volts = refl

cold : decimal_ℤ (tenth (negsuc 57)) ≡ codes "-5"
unfolding decimal_ℤ decimal
cold = refl

-- Below a whole degree the sign is gone.
nearly_zero : decimal_ℤ (tenth (negsuc 4)) ≡ codes "0"
unfolding decimal_ℤ decimal
nearly_zero = refl

-- A version that does not fit its buffer is cut after the letter.
long_version : version_label list_heapless (codes "2026.11.25-dirty") ≡ codes "v"
unfolding version_label write_pieces list_push
long_version = refl

screen_calls-AllOnPanel_example :
    AllOnPanel (screen_calls list_heapless (notice_screen power_off_title power_off_message))
screen_calls-AllOnPanel_example =
    screen_calls-AllOnPanel list_heapless (notice_screen power_off_title power_off_message)
      (omega arith)
