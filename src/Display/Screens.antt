-- ===== src/Display/Screens.antt =====
-- src/drivers/display_driver/mod.rs: the screens, as the calls of the drawing library, in their order.
-- The buffers of the texts are the interface of Network/Heapless.
pub mod Fit
mod Tests
use project_emerge_dropbot_f.Prelude.{
  ℕ, ◌+◌, ◌-◌, ◌*◌, ◌/◌, ◌%◌, min, Bool, true, false, Option, none, some, List, [], ◌∷◌, ◌++◌,
  length, if◌then◌else◌,
}
use project_emerge_dropbot_f.Prelude.Int.{ℤ, pos, negsuc, sub_ℕ}
use project_emerge_dropbot_f.Prelude.Text.{Text, codes, decimal, decimal_2}
use project_emerge_dropbot_f.Battery.{
  ChargerStatus, charge_state_label, charger_fault_label, thermistor_label, input_present,
  input_unusable, state_of_charge,
}
use project_emerge_dropbot_f.Network.Heapless.{Heapless, write_pieces}
use project_emerge_dropbot_f.Display.Controller.{
  NetworkPage, BatteryPage, Screen, network_page, battery_page, firmware_update, notice_screen,
}
use project_emerge_dropbot_f.Display.Layout.{
  margin, page_value_x, centered_x, right_aligned_x, clip_to_row, wrap_message,
}

abbrev pub display_height : ℕ
display_height = 64

abbrev pub line_height : ℕ
line_height = 11

abbrev pub page_title_top : ℕ
page_title_top = 3

abbrev pub page_separator_y : ℕ
page_separator_y = 15

-- The four rows of `PAGE_ROWS`.
abbrev pub page_row_0 : ℕ
page_row_0 = 19

abbrev pub page_row_1 : ℕ
page_row_1 = 30

abbrev pub page_row_2 : ℕ
page_row_2 = 41

abbrev pub page_row_3 : ℕ
page_row_3 = 52

abbrev pub no_address : Text
no_address = codes "---.---.---.---"

abbrev pub no_reading : Text
no_reading = codes "--"

abbrev pub no_charger : Text
no_charger = codes "NO CHARGER DATA"

abbrev pub screen_body_top : ℕ
screen_body_top = 19

abbrev pub screen_body_bottom : ℕ
screen_body_bottom = display_height - 3

-- What is drawn: a text at its top left corner; an outline, a filled area and a line by their points.
pub data Call : Type 0 where
  clear : Call
  text : ℕ → ℕ → Text → Call
  outline fill : ℕ → ℕ → ℕ → ℕ → Call
  line : ℕ → ℕ → ℕ → ℕ → Call

unfoldable pub draw_label_row : ℕ → Text → Text → List Call
draw_label_row y label value =
    text margin y label ∷ text page_value_x y (clip_to_row value page_value_x) ∷ []

unfoldable pub draw_split_row : ℕ → Text → Text → List Call
draw_split_row y left right = text margin y left ∷ text (right_aligned_x right) y right ∷ []

unfoldable pub draw_page_frame : Text → Text → List Call
unfolding draw_split_row
draw_page_frame title annotation =
    outline 0 0 128 display_height
    ∷ (draw_split_row page_title_top title annotation
        ++ line 0 page_separator_y 127 page_separator_y ∷ [])

-- The lines of a message below each other, from a height on.
unfoldable pub draw_lines : ℕ → List Text → List Call
draw_lines y [] = []
draw_lines y (t ∷ ts) = text (centered_x t) y t ∷ draw_lines (y + line_height) ts

unfoldable pub first_line : List Text → List Call
first_line [] = []
first_line (t ∷ ts) = text (centered_x t) screen_body_top t ∷ []

abbrev pub or_text : Option Text → Text → Text
or_text none t = t
or_text (some s) t = s

-- The temperature in whole degrees: `/` of signed integers goes towards zero.
abbrev pub tenth : ℤ → ℤ
tenth (pos n) = pos (n / 10)
tenth (negsuc n) = sub_ℕ 0 ((n + 1) / 10)

unfoldable pub decimal_ℤ : ℤ → Text
decimal_ℤ (pos n) = decimal n
decimal_ℤ (negsuc n) = 45 ∷ decimal (n + 1)

-- The second of a pair of tests on options.
abbrev pub or_else : Option Text → Option Text → Option Text
or_else none other = other
or_else (some t) other = some t

abbrev pub fault_label : ChargerStatus → Option Text
fault_label status = elim status.fault [
  | none ↦ none
  | some fault ↦ some (charger_fault_label fault)
]

module _ (h : Heapless) where
  -- `write!` into a fresh buffer.
  abbrev pub written : ℕ → List Text → Text
  written capacity pieces = (write_pieces h capacity [] pieces).0

  unfoldable pub format_volts : ℕ → Text
  format_volts millivolts = written 8 (
      decimal (millivolts / 1000) ∷ codes "." ∷ decimal_2 (millivolts % 1000 / 10) ∷ codes "V" ∷ [])

  unfoldable pub format_amps : ℕ → Text
  format_amps milliamps =
      written 8 (
        decimal (milliamps / 1000) ∷ codes "." ∷ decimal_2 (milliamps % 1000 / 10) ∷ codes "A" ∷ [])

  unfoldable pub version_label : Text → Text
  version_label firmware_version = written 16 (codes "v" ∷ firmware_version ∷ [])

  unfoldable pub cells_text : ChargerStatus → Text
  cells_text s = written 20 (
      decimal (s.cell_top_mv / 1000)
      ∷ codes "."
      ∷ decimal_2 (s.cell_top_mv % 1000 / 10)
      ∷ codes "/"
      ∷ decimal (s.cell_bot_mv / 1000)
      ∷ codes "."
      ∷ decimal_2 (s.cell_bot_mv % 1000 / 10)
      ∷ codes "V"
      ∷ [])

  unfoldable pub health : ChargerStatus → Text
  health s =
      or_text (or_else (fault_label s) (thermistor_label s.thermistor))
        (if input_unusable s then codes "POOR PWR" else codes "OK")

  unfoldable pub input_text : ChargerStatus → Text
  unfolding format_volts
  input_text s =
      if input_present s
      then written 16 (codes "VBUS " ∷ format_volts s.vbus_mv ∷ [])
      else written 16 (codes "VBUS " ∷ no_reading ∷ [])

  unfoldable pub input_current_text : ChargerStatus → Text
  unfolding format_amps
  input_current_text s = if input_present s then format_amps s.input_current_ma else []

  unfoldable pub draw_network_page : NetworkPage → List Call
  unfolding draw_page_frame draw_label_row version_label
  draw_network_page page =
      let version = version_label page.firmware_version in
      clear
      ∷ (draw_page_frame (codes "NETWORK")
            (elim page.ip_address [ none ↦ codes "NO LINK" | some address ↦ codes "ONLINE" ])
          ++ (draw_label_row page_row_0 (codes "SSID") page.ssid
              ++ (draw_label_row page_row_1 (codes "IP") (or_text page.ip_address no_address)
                  ++ (draw_label_row page_row_2 (codes "MQTT") page.broker_status
                      ++ (draw_label_row page_row_3 (codes "ID") page.device_id
                          ++ text (right_aligned_x version) page_row_3 version ∷ [])))))

  unfoldable pub draw_no_status : Text → List Call
  unfolding draw_page_frame draw_split_row
  draw_no_status version =
      draw_page_frame (codes "BATTERY") no_reading
      ++ (text (centered_x no_charger) page_row_1 no_charger ∷ draw_split_row page_row_3 [] version)

  unfoldable pub draw_status : ChargerStatus → Text → List Call
  unfolding draw_page_frame draw_split_row draw_label_row format_volts format_amps cells_text health
      input_text input_current_text
  draw_status s version =
      let header = written 12 (codes "BAT " ∷ decimal (state_of_charge s) ∷ codes "%" ∷ []) in
      let pack = written 16 (codes "VBAT " ∷ format_volts s.vbat_mv ∷ []) in
      let footer = written 20 (decimal_ℤ (tenth s.die_temp_dc) ∷ codes "C " ∷ health s ∷ []) in
      draw_page_frame header (charge_state_label s.state)
      ++ (draw_split_row page_row_0 pack (format_amps s.charge_current_ma)
          ++ (draw_label_row page_row_1 (codes "CELL") (cells_text s)
              ++ (draw_split_row page_row_2 (input_text s) (input_current_text s)
                  ++ draw_split_row page_row_3 footer version)))

  unfoldable pub draw_battery_page : BatteryPage → List Call
  unfolding draw_no_status draw_status version_label
  draw_battery_page page =
      let version = version_label page.firmware_version in
      clear ∷ elim page.status [
        | none ↦ draw_no_status version
        | some status ↦ draw_status status version
      ]

  unfoldable pub draw_progress : List Text → ℕ → List Call
  unfolding first_line
  draw_progress lines known =
      let percent = min known 100 in
      let figure = written 8 (decimal percent ∷ codes "%" ∷ []) in
      first_line lines
      ++ outline 12 34 104 14
        ∷ fill 14 36 (100 * percent / 100) 10
        ∷ text (centered_x figure) (screen_body_bottom - line_height) figure
        ∷ []

  unfoldable pub draw_message : List Text → List Call
  unfolding draw_lines
  draw_message lines =
      let block_height = length lines * line_height in
      draw_lines (screen_body_top + (screen_body_bottom - screen_body_top - block_height) / 2) lines

  unfoldable pub draw_screen : Text → Text → Option ℕ → List Call
  unfolding draw_progress draw_message
  draw_screen title message percent =
      let lines = wrap_message message in
      clear
      ∷ outline 0 0 128 64
      ∷ text (centered_x title) 3 title
      ∷ line 0 16 127 16
      ∷ elim percent [ none ↦ draw_message lines | some known ↦ draw_progress lines known ]

  -- What each drawing of the task draws.
  unfoldable pub screen_calls : Screen → List Call
  unfolding draw_network_page draw_battery_page draw_screen
  screen_calls (network_page page) = draw_network_page page
  screen_calls (battery_page page) = draw_battery_page page
  screen_calls (firmware_update message percent) =
      draw_screen (codes "FIRMWARE UPDATE") message percent
  screen_calls (notice_screen title message) = draw_screen title message none
