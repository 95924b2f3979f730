-- ===== src/Display/Controller/Ownership.antt =====
-- What the panel shows at any time, as a function of what the task has been told.
use mathlib.Core.Path.{subst}
use project_emerge_dropbot_f.Prelude.{
  ◌≡◌, refl, sym, ap, ◌∙◌, ◌⊎◌, inl, inr, ℕ, Bool, true, false, Option, List, [], ◌∷◌,
}
use project_emerge_dropbot_f.Prelude.Text.{Text}
use project_emerge_dropbot_f.Battery.{ChargerStatus}
use project_emerge_dropbot_f.Menu.{MenuPage, network, battery, page_eq}
use project_emerge_dropbot_f.Network.Heapless.{Heapless}
use project_emerge_dropbot_f.Network.Session.{BrokerStatus}
use project_emerge_dropbot_f.Ota.Status.{idle, preparing, downloading, applying, is_active}
use project_emerge_dropbot_f.Power.{ShutdownReason, short_press, shutting_down}
use project_emerge_dropbot_f.Display.Controller.{
  Screen, firmware_update, DisplayEvent, network_event, ota_event, power_event, broker_event,
  charger_event, Phase, running, holding, Panel, Build, page_screen, draw, draw_page, notice_of,
  update_screen, on_event, step, run, start,
}

module _ {A : Type 0} (h : Heapless) (build : Build A) where
  abbrev pub Shows : Phase → Bool → Panel A → Type 0
  Shows running false s =
      (rest : List Screen) × (s.drawn
        ≡ page_screen h build s.page s.address s.broker s.charger ∷ rest)
  Shows running true s =
      (text : Text) × (p : Option ℕ) × (rest : List Screen) × (s.drawn
        ≡ firmware_update text p ∷ rest)
  Shows holding _ s =
      (s.drawn ≡ [])
      ⊎ ((reason : ShutdownReason) × (rest : List Screen) × (s.drawn
            ≡ notice_of h build reason ∷ rest))

  abbrev pub IsShown : Panel A → Type 0
  IsShown s = Shows s.phase s.ota_active s

  abbrev panel :
      Phase
      → Option A
      → BrokerStatus
      → Option ChargerStatus
      → Bool
      → MenuPage
      → List Screen
      → Panel A
  panel phase address broker charger ota_active page drawn = record {
    phase = phase;
    address = address;
    broker = broker;
    charger = charger;
    ota_active = ota_active;
    page = page;
    drawn = drawn;
  }

  on_event-IsShown :
      (event : DisplayEvent A) (a : Option A) (b : BrokerStatus) (c : Option ChargerStatus)
      (active : Bool) (page : MenuPage) (drawn : List Screen)
      → IsShown (panel running a b c active page drawn)
      → IsShown (on_event h build event (panel running a b c active page drawn))
  unfolding on_event draw_page draw page_screen update_screen is_active page_eq
  on_event-IsShown (network_event status) a b c true page drawn i = i
  on_event-IsShown (network_event status) a b c false page drawn i = (drawn, refl)
  on_event-IsShown (broker_event status) a b c true page drawn i = i
  on_event-IsShown (broker_event status) a b c false network drawn i = (drawn, refl)
  on_event-IsShown (broker_event status) a b c false battery drawn i = i
  on_event-IsShown (charger_event status) a b c true page drawn i = i
  on_event-IsShown (charger_event status) a b c false network drawn i = i
  on_event-IsShown (charger_event status) a b c false battery drawn i = (drawn, refl)
  on_event-IsShown (power_event short_press) a b c true page drawn i = i
  on_event-IsShown (power_event short_press) a b c false page drawn i = (drawn, refl)
  on_event-IsShown (power_event (shutting_down reason)) a b c active page drawn i =
      inr (reason, drawn, refl)
  on_event-IsShown (ota_event idle) a b c active page drawn i = (drawn, refl)
  on_event-IsShown (ota_event preparing) a b c active page drawn i = (_, _, drawn, refl)
  on_event-IsShown (ota_event (downloading w t)) a b c active page drawn i = (_, _, drawn, refl)
  on_event-IsShown (ota_event applying) a b c active page drawn i = (_, _, drawn, refl)

  step-panel :
      (phase : Phase) (event : DisplayEvent A) (a : Option A) (b : BrokerStatus)
      (c : Option ChargerStatus) (active : Bool) (page : MenuPage) (drawn : List Screen)
      → IsShown (panel phase a b c active page drawn)
      → IsShown (step h build event (panel phase a b c active page drawn))
  unfolding step
  step-panel running event a b c active page drawn i =
      on_event-IsShown event a b c active page drawn i
  step-panel holding event a b c active page drawn i = i

  step-holding :
      (event : DisplayEvent A) (s : Panel A) → s.phase ≡ holding → step h build event s ≡ s
  unfolding step
  step-holding event s e =
      subst (λ p. elim p [ running ↦ on_event h build event s | holding ↦ s ] ≡ s) (sym e) refl

  run-IsShown :
      (events : List (DisplayEvent A)) (s : Panel A) → IsShown s → IsShown (run h build events s)
  unfolding run
  run-IsShown [] s i = i
  run-IsShown (event ∷ events) s i =
      run-IsShown events (step h build event s)
        (step-panel s.phase event s.address s.broker s.charger s.ota_active s.page s.drawn i)

  -- After any events, whether or not the display came up: while the task runs and no update is active,
  -- the last thing drawn is the selected page, from the latest address, broker status and charger
  -- status; while an update is active it is an update screen; and once the task holds it is the notice
  -- of a shutdown, or nothing was ever drawn.
  pub run-start-IsShown :
      (events : List (DisplayEvent A)) (initialized : Bool)
      → IsShown (run h build events (start h build initialized))
  unfolding start draw_page draw
  run-start-IsShown events true = run-IsShown events (start h build true) ([], refl)
  run-start-IsShown events false = run-IsShown events (start h build false) (inl refl)

  -- Once the task holds, no event makes it draw or do anything else.
  pub run-holding :
      (events : List (DisplayEvent A)) (s : Panel A) → s.phase ≡ holding → run h build events s ≡ s
  unfolding run step
  run-holding [] s e = refl
  run-holding (event ∷ events) s e =
      ap (run h build events) (step-holding event s e) ∙ run-holding events s e
