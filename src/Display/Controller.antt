-- ===== src/Display/Controller.antt =====
-- src/tasks/display_controller.rs: what the display shows, event by event. Each drawing is recorded
-- with all that it is drawn from, the latest first; its failure is only logged.
pub mod Ownership
pub mod Tracking
mod Tests
use project_emerge_dropbot_f.Prelude.{
  ℕ, ◌≡◌, refl, Bool, true, false, not, ◌||◌, Option, none, some, List, [], ◌∷◌, if◌then◌else◌,
}
use project_emerge_dropbot_f.Prelude.Text.{Text, codes}
use project_emerge_dropbot_f.Battery.{ChargerStatus}
use project_emerge_dropbot_f.Menu.{MenuPage, network, battery, next, page_eq}
use project_emerge_dropbot_f.Network.Heapless.{Heapless, write_pieces}
use project_emerge_dropbot_f.Network.Session.{BrokerStatus, disconnected, connected}
use project_emerge_dropbot_f.Ota.Status.{
  OtaStatus, idle, preparing, downloading, applying, is_active, percent,
}
use project_emerge_dropbot_f.Power.{
  ShutdownReason, button_held, low_battery, PowerEvent, short_press, shutting_down,
}

abbrev pub power_off_title : Text
power_off_title = codes "POWERING OFF"

abbrev pub power_off_message : Text
power_off_message = codes "Bye!"

abbrev pub low_battery_title : Text
low_battery_title = codes "LOW BATTERY"

abbrev pub low_battery_message : Text
low_battery_message = codes "Robot powering off"

unfoldable pub broker_label : BrokerStatus → Text
broker_label disconnected = codes "OFFLINE"
broker_label connected = codes "ONLINE"

-- What the pages are given.
pub record NetworkPage : Type 0 where
  pub device_id : Text
  pub ssid : Text
  pub ip_address : Option Text
  pub broker_status : Text
  pub firmware_version : Text

pub record BatteryPage : Type 0 where
  pub status : Option ChargerStatus
  pub firmware_version : Text

pub data Screen : Type 0 where
  network_page : NetworkPage → Screen
  battery_page : BatteryPage → Screen
  firmware_update : Text → Option ℕ → Screen
  notice_screen : Text → Text → Screen

-- An address is of the network stack, which prints it.
pub data DisplayEvent (A : Type 0) : Type 0 where
  network_event : Option A → DisplayEvent A
  ota_event : OtaStatus → DisplayEvent A
  power_event : PowerEvent → DisplayEvent A
  broker_event : BrokerStatus → DisplayEvent A
  charger_event : ChargerStatus → DisplayEvent A

-- Before the first drawing, in the loop, or in one of the two loops that only wait.
pub data Phase : Type 0 where
  running holding : Phase

pub record Panel (A : Type 0) : Type 0 where
  pub phase : Phase
  pub address : Option A
  pub broker : BrokerStatus
  pub charger : Option ChargerStatus
  pub ota_active : Bool
  pub page : MenuPage
  pub drawn : List Screen

-- The constants of the build, and the printer of addresses.
pub record Build (A : Type 0) : Type 0 where
  pub device_id : Text
  pub wifi_ssid : Text
  pub firmware_version : Text
  pub format_address : A → Text

module _ {A : Type 0} (h : Heapless) (build : Build A) where
  abbrev pub formatted : Option A → Option Text
  formatted none = none
  formatted (some a) = some (write_pieces h 15 [] (build.format_address a ∷ [])).0

  unfoldable pub page_screen : MenuPage → Option A → BrokerStatus → Option ChargerStatus → Screen
  unfolding broker_label
  page_screen network address broker charger = network_page (record {
    device_id = build.device_id;
    ssid = build.wifi_ssid;
    ip_address = formatted address;
    broker_status = broker_label broker;
    firmware_version = build.firmware_version;
  })
  page_screen battery address broker charger =
      battery_page (record { status = charger; firmware_version = build.firmware_version })

  unfoldable pub draw : Screen → Panel A → Panel A
  draw screen s = record s { drawn = screen ∷ s.drawn }

  unfoldable pub draw_page : Panel A → Panel A
  unfolding page_screen draw
  draw_page s = draw (page_screen s.page s.address s.broker s.charger) s

  unfoldable pub notice_of : ShutdownReason → Screen
  notice_of button_held = notice_screen power_off_title power_off_message
  notice_of low_battery = notice_screen low_battery_title low_battery_message

  unfoldable pub update_screen : OtaStatus → Panel A → Panel A
  unfolding draw_page draw
  update_screen idle s = draw_page s
  update_screen preparing s = draw (firmware_update (codes "Loading new firmware...") none) s
  update_screen (downloading written total) s =
      draw (firmware_update (codes "Downloading firmware") (percent (downloading written total))) s
  update_screen applying s = draw (firmware_update (codes "Rebooting...") (percent applying)) s

  unfoldable pub on_event : DisplayEvent A → Panel A → Panel A
  unfolding draw_page draw notice_of update_screen
  on_event (network_event status) s =
      let s' = record s { address = status } in if s'.ota_active then s' else draw_page s'
  on_event (broker_event status) s =
      let s' = record s { broker = status } in
      if s'.ota_active || not (page_eq s'.page network) then s' else draw_page s'
  on_event (charger_event status) s =
      let s' = record s { charger = some status } in
      if s'.ota_active || not (page_eq s'.page battery) then s' else draw_page s'
  on_event (power_event short_press) s =
      let s' = record s { page = next s.page } in if s'.ota_active then s' else draw_page s'
  on_event (power_event (shutting_down reason)) s = record (draw (notice_of reason) s) {
    phase = holding;
  }
  on_event (ota_event status) s = update_screen status (record s { ota_active = is_active status })

  unfoldable pub step : DisplayEvent A → Panel A → Panel A
  unfolding on_event
  step event s = elim s.phase [ running ↦ on_event event s | holding ↦ s ]

  unfoldable pub run : List (DisplayEvent A) → Panel A → Panel A
  unfolding step
  run [] s = s
  run (event ∷ events) s = run events (step event s)

  abbrev pub blank : Panel A
  blank = record {
    phase = running;
    address = none;
    broker = disconnected;
    charger = none;
    ota_active = false;
    page = network;
    drawn = [];
  }

  -- After the display is initialized: the network page is drawn. Where it cannot be, the task waits
  -- for ever.
  unfoldable pub start : Bool → Panel A
  unfolding draw_page
  start initialized = if initialized then draw_page blank else record blank { phase = holding }
