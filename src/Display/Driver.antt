-- ===== src/Display/Driver.antt =====
-- src/drivers/display_driver: the state of the driver. The library of the panel is not part of this
-- repository: what its start and its flushes give is arbitrary; the calls to it are recorded, the
-- earliest first.
mod Tests
use mathlib.Core.List.{append-nil, append_assoc}
use project_emerge_dropbot_f.Prelude.{
  ℕ, ◌≡◌, refl, sym, ap, ◌∙◌, Bool, true, false, if◌then◌else◌, List, [], ◌∷◌, ◌++◌, map, Result,
  ok, err, map_err,
}
use project_emerge_dropbot_f.Network.Heapless.{Heapless}
use project_emerge_dropbot_f.Display.Controller.{Screen}
use project_emerge_dropbot_f.Display.Screens.{Call, screen_calls}

pub data DisplayError (E : Type 0) : Type 0 where
  bus_error : E → DisplayError E
  not_initialized : DisplayError E

-- Whether the driver still has the bus, and whether it has the panel, which takes the bus.
pub record Sd1306Driver : Type 0 where
  pub i2c : Bool
  pub display : Bool
  pub drawn : List Call

abbrev pub new : Sd1306Driver
new = record { i2c = true; display = false; drawn = [] }

-- The two states after the first start.
abbrev ready : List Call → Sd1306Driver
ready drawn = record { i2c = false; display = true; drawn = drawn }

abbrev lost : Sd1306Driver
lost = record { i2c = false; display = false; drawn = [] }

-- The operations of the trait, with what the library gives where it is asked.
pub data Operation (E : Type 0) : Type 0 where
  init_panel : Result E (Unit {0}) → Operation E
  draw_screen : Screen → Result E (Unit {0}) → Operation E

module _ {E : Type 0} where
  -- The bus is taken before the library's start, which may fail.
  unfoldable pub started :
      Result E (Unit {0}) → Sd1306Driver → Sd1306Driver × Result (DisplayError E) (Unit {0})
  started (ok _) d = (record d { i2c = false; display = true }, ok tt)
  started (err e) d = (record d { i2c = false }, err (bus_error e))

  unfoldable pub init :
      Result E (Unit {0}) → Sd1306Driver → Sd1306Driver × Result (DisplayError E) (Unit {0})
  unfolding started
  init r d =
      if d.display then (d, ok tt) else (if d.i2c then started r d else (d, err not_initialized))

  module _ (h : Heapless) where
    unfoldable pub draw :
        Screen
        → Result E (Unit {0})
        → Sd1306Driver
        → Sd1306Driver × Result (DisplayError E) (Unit {0})
    draw screen flushed d =
        if d.display
        then (record d { drawn = d.drawn ++ screen_calls h screen }, map_err bus_error flushed)
        else (d, err not_initialized)

    unfoldable pub perform :
        Operation E → Sd1306Driver → Sd1306Driver × Result (DisplayError E) (Unit {0})
    unfolding init draw
    perform (init_panel r) d = init r d
    perform (draw_screen screen flushed) d = draw screen flushed d

    unfoldable pub run :
        List (Operation E) → Sd1306Driver → Sd1306Driver × List (Result (DisplayError E) (Unit {0}))
    unfolding perform
    run [] d = (d, [])
    run (o ∷ os) d =
        let (now, result) = perform o d in
        let (end, results) = run os now in (end, result ∷ results)

    -- What a driver that has its panel answers and draws.
    abbrev pub answer : Operation E → Result (DisplayError E) (Unit {0})
    answer (init_panel r) = ok tt
    answer (draw_screen screen flushed) = map_err bus_error flushed

    abbrev pub calls_of : List (Operation E) → List Call
    calls_of [] = []
    calls_of (init_panel r ∷ os) = calls_of os
    calls_of (draw_screen screen flushed ∷ os) = screen_calls h screen ++ calls_of os

    abbrev pub refused : Operation E → Result (DisplayError E) (Unit {0})
    refused o = err not_initialized

    -- The whole life of a driver, by what its first start gives.
    abbrev pub Lives :
        Result E (Unit {0})
        → List (Operation E)
        → Sd1306Driver × List (Result (DisplayError E) (Unit {0}))
        → Type 0
    Lives (ok _) os (end, results) = (results ≡ ok tt ∷ map answer os) × (end.drawn ≡ calls_of os)
    Lives (err e) os (end, results) =
        (results ≡ err (bus_error e) ∷ map refused os) × (end.drawn ≡ [])

    run-ready :
        (os : List (Operation E)) (drawn : List Call)
        → ((run os (ready drawn)).1 ≡ map answer os)
          × ((run os (ready drawn)).0.drawn ≡ drawn ++ calls_of os)
    unfolding run
    run-ready [] drawn = (refl, sym (append-nil drawn))
    run-ready (init_panel r ∷ os) drawn =
        let (results, drawings) = run-ready os drawn in (ap (λ rs. ok tt ∷ rs) results, drawings)
    run-ready (draw_screen screen flushed ∷ os) drawn =
        let (results, drawings) = run-ready os (drawn ++ screen_calls h screen) in
        (
          ap (λ rs. map_err bus_error flushed ∷ rs) results,
          drawings ∙ append_assoc drawn (screen_calls h screen) (calls_of os),
        )

    run-lost :
        (os : List (Operation E))
        → ((run os lost).1 ≡ map refused os) × ((run os lost).0.drawn ≡ [])
    unfolding run
    run-lost [] = (refl, refl)
    run-lost (init_panel r ∷ os) =
        let (results, drawings) = run-lost os in
        (ap (λ rs. err not_initialized ∷ rs) results, drawings)
    run-lost (draw_screen screen flushed ∷ os) =
        let (results, drawings) = run-lost os in
        (ap (λ rs. err not_initialized ∷ rs) results, drawings)

    -- A driver whose first start succeeds answers every later start at once, and each drawing with what
    -- the flush gives, having drawn exactly the screens that it was given, in their order. One whose
    -- first start fails has lost the bus: every later start and drawing is refused as not initialized,
    -- and nothing is ever drawn.
    pub run-Lives :
        (r : Result E (Unit {0})) (os : List (Operation E))
        → Lives r os (run (init_panel r ∷ os) new)
    unfolding run
    run-Lives (ok x) os =
        let (results, drawings) = run-ready os [] in (ap (λ rs. ok tt ∷ rs) results, drawings)
    run-Lives (err e) os =
        let (results, drawings) = run-lost os in
        (ap (λ rs. err (bus_error e) ∷ rs) results, drawings)
