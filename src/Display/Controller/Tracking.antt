-- ===== src/Display/Controller/Tracking.antt =====
-- What the display task remembers of its events, also of those that come while an update is shown.
use mathlib.Core.Path.{subst}
use project_emerge_dropbot_f.Prelude.{
  ℕ, suc, ◌≡◌, refl, sym, ap, ◌∙◌, Bool, true, false, Option, some, List, [], ◌∷◌, not, ◌||◌,
  if◌then◌else◌,
}
use project_emerge_dropbot_f.Battery.{ChargerStatus}
use project_emerge_dropbot_f.Menu.{MenuPage, network, battery, next, press, page_eq}
use project_emerge_dropbot_f.Network.Heapless.{Heapless}
use project_emerge_dropbot_f.Network.Session.{BrokerStatus}
use project_emerge_dropbot_f.Ota.Status.{
  OtaStatus, idle, preparing, downloading, applying, is_active,
}
use project_emerge_dropbot_f.Power.{short_press, shutting_down}
use project_emerge_dropbot_f.Display.Controller.{
  DisplayEvent, network_event, ota_event, power_event, broker_event, charger_event, Phase, running,
  holding, Panel, Build, draw, draw_page, update_screen, on_event, step, run,
}

-- What the last event of each kind said, and how often the button was pressed.
abbrev pub last_address : {A : Type 0} → Option A → List (DisplayEvent A) → Option A
last_address o [] = o
last_address o (network_event status ∷ es) = last_address status es
last_address o (_ ∷ es) = last_address o es

abbrev pub last_broker : {A : Type 0} → BrokerStatus → List (DisplayEvent A) → BrokerStatus
last_broker o [] = o
last_broker o (broker_event status ∷ es) = last_broker status es
last_broker o (_ ∷ es) = last_broker o es

abbrev pub last_charger :
    {A : Type 0} → Option ChargerStatus → List (DisplayEvent A) → Option ChargerStatus
last_charger o [] = o
last_charger o (charger_event status ∷ es) = last_charger (some status) es
last_charger o (_ ∷ es) = last_charger o es

abbrev pub last_active : {A : Type 0} → Bool → List (DisplayEvent A) → Bool
last_active o [] = o
last_active o (ota_event status ∷ es) = last_active (is_active status) es
last_active o (_ ∷ es) = last_active o es

abbrev pub presses : {A : Type 0} → List (DisplayEvent A) → ℕ
presses [] = 0
presses (power_event short_press ∷ es) = suc (presses es)
presses (_ ∷ es) = presses es

-- None of the events announces a shutdown.
abbrev pub is_live : {A : Type 0} → List (DisplayEvent A) → Bool
is_live [] = true
is_live (power_event (shutting_down reason) ∷ es) = false
is_live (_ ∷ es) = is_live es

address_cons :
    {A : Type 0} (e : DisplayEvent A) (es : List (DisplayEvent A)) (o : Option A)
    → last_address (last_address o (e ∷ [])) es ≡ last_address o (e ∷ es)
address_cons (network_event x) es o = refl
address_cons (broker_event x) es o = refl
address_cons (charger_event x) es o = refl
address_cons (ota_event x) es o = refl
address_cons (power_event short_press) es o = refl
address_cons (power_event (shutting_down x)) es o = refl

broker_cons :
    {A : Type 0} (e : DisplayEvent A) (es : List (DisplayEvent A)) (o : BrokerStatus)
    → last_broker (last_broker o (e ∷ [])) es ≡ last_broker o (e ∷ es)
broker_cons (network_event x) es o = refl
broker_cons (broker_event x) es o = refl
broker_cons (charger_event x) es o = refl
broker_cons (ota_event x) es o = refl
broker_cons (power_event short_press) es o = refl
broker_cons (power_event (shutting_down x)) es o = refl

charger_cons :
    {A : Type 0} (e : DisplayEvent A) (es : List (DisplayEvent A)) (o : Option ChargerStatus)
    → last_charger (last_charger o (e ∷ [])) es ≡ last_charger o (e ∷ es)
charger_cons (network_event x) es o = refl
charger_cons (broker_event x) es o = refl
charger_cons (charger_event x) es o = refl
charger_cons (ota_event x) es o = refl
charger_cons (power_event short_press) es o = refl
charger_cons (power_event (shutting_down x)) es o = refl

active_cons :
    {A : Type 0} (e : DisplayEvent A) (es : List (DisplayEvent A)) (o : Bool)
    → last_active (last_active o (e ∷ [])) es ≡ last_active o (e ∷ es)
active_cons (network_event x) es o = refl
active_cons (broker_event x) es o = refl
active_cons (charger_event x) es o = refl
active_cons (ota_event x) es o = refl
active_cons (power_event short_press) es o = refl
active_cons (power_event (shutting_down x)) es o = refl

presses_cons :
    {A : Type 0} (e : DisplayEvent A) (es : List (DisplayEvent A)) (p : MenuPage)
    → press (presses es) (press (presses (e ∷ [])) p) ≡ press (presses (e ∷ es)) p
presses_cons (network_event x) es p = refl
presses_cons (broker_event x) es p = refl
presses_cons (charger_event x) es p = refl
presses_cons (ota_event x) es p = refl
presses_cons (power_event short_press) es p = refl
presses_cons (power_event (shutting_down x)) es p = refl

module _ {A : Type 0} (h : Heapless) (build : Build A) where
  abbrev pub Tracks : List (DisplayEvent A) → Panel A → Panel A → Type 0
  Tracks events s t =
      (t.phase ≡ running)
      × (t.address ≡ last_address s.address events)
      × (t.broker ≡ last_broker s.broker events)
      × (t.charger ≡ last_charger s.charger events)
      × (t.ota_active ≡ last_active s.ota_active events)
      × (t.page ≡ press (presses events) s.page)

  abbrev Noted :
      Phase → Option A → BrokerStatus → Option ChargerStatus → Bool → MenuPage → Panel A → Type 0
  Noted phase a b c active page t =
      (t.phase ≡ phase)
      × (t.address ≡ a)
      × (t.broker ≡ b)
      × (t.charger ≡ c)
      × (t.ota_active ≡ active)
      × (t.page ≡ page)

  -- Drawing or not, under any test, changes nothing but what is drawn.
  draw_page-Noted :
      (skip : Bool) (s : Panel A)
      → Noted s.phase s.address s.broker s.charger s.ota_active s.page
          (if skip then s else draw_page h build s)
  unfolding draw_page draw
  draw_page-Noted true s = (refl, refl, refl, refl, refl, refl)
  draw_page-Noted false s = (refl, refl, refl, refl, refl, refl)

  update_screen-Noted :
      (status : OtaStatus) (s : Panel A)
      → Noted s.phase s.address s.broker s.charger s.ota_active s.page
          (update_screen h build status s)
  unfolding update_screen draw_page draw
  update_screen-Noted idle s = (refl, refl, refl, refl, refl, refl)
  update_screen-Noted preparing s = (refl, refl, refl, refl, refl, refl)
  update_screen-Noted (downloading w t) s = (refl, refl, refl, refl, refl, refl)
  update_screen-Noted applying s = (refl, refl, refl, refl, refl, refl)

  on_event-Tracks :
      (event : DisplayEvent A) (s : Panel A)
      → is_live (event ∷ []) ≡ true
      → s.phase ≡ running
      → Tracks (event ∷ []) s (on_event h build event s)
  unfolding on_event
  on_event-Tracks (network_event status) s live e =
      let (p, a, b, c, o, g) = draw_page-Noted s.ota_active (record s { address = status }) in
      (p ∙ e, a, b, c, o, g)
  on_event-Tracks (broker_event status) s live e =
      let (p, a, b, c, o, g) =
        draw_page-Noted (s.ota_active || not (page_eq s.page network))
          (record s { broker = status }) in
      (p ∙ e, a, b, c, o, g)
  on_event-Tracks (charger_event status) s live e =
      let (p, a, b, c, o, g) =
        draw_page-Noted (s.ota_active || not (page_eq s.page battery))
          (record s { charger = some status }) in
      (p ∙ e, a, b, c, o, g)
  on_event-Tracks (power_event short_press) s live e =
      let (p, a, b, c, o, g) = draw_page-Noted s.ota_active (record s { page = next s.page }) in
      (p ∙ e, a, b, c, o, g)
  on_event-Tracks (power_event (shutting_down reason)) s live e = cc
  on_event-Tracks (ota_event status) s live e =
      let (p, a, b, c, o, g) =
        update_screen-Noted status (record s { ota_active = is_active status }) in
      (p ∙ e, a, b, c, o, g)

  step-Tracks :
      (event : DisplayEvent A) (s : Panel A)
      → is_live (event ∷ []) ≡ true
      → s.phase ≡ running
      → Tracks (event ∷ []) s (step h build event s)
  unfolding step
  step-Tracks event s live e =
      subst
        (λ p. Tracks (event ∷ []) s (elim p [ running ↦ on_event h build event s | holding ↦ s ]))
        (sym e) (on_event-Tracks event s live e)

  is_live_cons :
      (event : DisplayEvent A) (events : List (DisplayEvent A))
      → is_live (event ∷ events) ≡ true
      → (is_live (event ∷ []) ≡ true) × (is_live events ≡ true)
  is_live_cons (network_event x) es l = (refl, l)
  is_live_cons (broker_event x) es l = (refl, l)
  is_live_cons (charger_event x) es l = (refl, l)
  is_live_cons (ota_event x) es l = (refl, l)
  is_live_cons (power_event short_press) es l = (refl, l)
  is_live_cons (power_event (shutting_down x)) es l = cc

  Tracks-cons :
      (event : DisplayEvent A) (events : List (DisplayEvent A)) (s t u : Panel A)
      → Tracks (event ∷ []) s t
      → Tracks events t u
      → Tracks (event ∷ events) s u
  Tracks-cons event events s t u (p, a, b, c, o, g) (p', a', b', c', o', g') = (
    p',
    a' ∙ ap (λ x. last_address x events) a ∙ address_cons event events s.address,
    b' ∙ ap (λ x. last_broker x events) b ∙ broker_cons event events s.broker,
    c' ∙ ap (λ x. last_charger x events) c ∙ charger_cons event events s.charger,
    o' ∙ ap (λ x. last_active x events) o ∙ active_cons event events s.ota_active,
    g' ∙ ap (press (presses events)) g ∙ presses_cons event events s.page,
  )

  -- Over any events from a running task that announce no shutdown, it goes on running, and it remembers
  -- the address, the broker status and the charger status that came last, whether the last status of an
  -- update was an active one, and the page that the presses lead to: also where they came while an
  -- update was shown and nothing was drawn.
  pub run-Tracks :
      (events : List (DisplayEvent A)) (s : Panel A)
      → is_live events ≡ true
      → s.phase ≡ running
      → Tracks events s (run h build events s)
  unfolding run
  run-Tracks [] s live e = (e, refl, refl, refl, refl, refl)
  run-Tracks (event ∷ events) s live e =
      let (first, rest) = is_live_cons event events live in
      let t = step h build event s in
      let now = step-Tracks event s first e in
      Tracks-cons event events s t (run h build events t) now (run-Tracks events t rest now.0)
