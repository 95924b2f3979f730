-- ===== src/Display/Controller/Tests.antt =====
-- A press and a new address while an update is shown, and then its end.
use project_emerge_dropbot_f.Prelude.{ℕ, refl, true, some, List, [], ◌∷◌}
use project_emerge_dropbot_f.Prelude.Text.{codes, decimal}
use project_emerge_dropbot_f.Network.Heapless.{list_heapless}
use project_emerge_dropbot_f.Ota.Status.{idle, preparing, downloading}
use project_emerge_dropbot_f.Power.{short_press}
use project_emerge_dropbot_f.Display.Controller.{
  DisplayEvent, network_event, ota_event, power_event, Build, blank, run, start,
}
use project_emerge_dropbot_f.Display.Controller.Ownership.{IsShown, run-start-IsShown}
use project_emerge_dropbot_f.Display.Controller.Tracking.{Tracks, run-Tracks}

abbrev build : Build ℕ
build = record {
  device_id = codes "0a";
  wifi_ssid = codes "lab";
  firmware_version = codes "1.0";
  format_address = decimal;
}

abbrev events : List (DisplayEvent ℕ)
events =
    ota_event preparing
    ∷ power_event short_press
    ∷ network_event (some 7)
    ∷ ota_event (downloading 5 10)
    ∷ ota_event idle
    ∷ []

run-start-IsShown_example :
    IsShown list_heapless build (run list_heapless build events (start list_heapless build true))
run-start-IsShown_example = run-start-IsShown list_heapless build events true

run-Tracks_example :
    Tracks list_heapless build events
      (blank list_heapless build)
      (run list_heapless build events (blank list_heapless build))
run-Tracks_example = run-Tracks list_heapless build events (blank list_heapless build) refl refl
