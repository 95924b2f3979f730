-- ===== src/Display/Screens/Fit.antt =====
-- Nothing that a screen draws runs past the panel.
use project_emerge_dropbot_f.Prelude.{
  ℕ, ◌+◌, ◌*◌, ◌≤◌, ◌<◌, Option, none, some, List, [], ◌∷◌, ◌++◌, length, length-take, if_cases,
  arith,
}
use project_emerge_dropbot_f.Prelude.Text.{Text, codes}
use project_emerge_dropbot_f.Battery.{
  ChargerStatus, input_present, ChargeState, charge_state_label, not_charging, trickle, pre_charge,
  fast_charge, taper_charge, top_off, done,
}
use project_emerge_dropbot_f.Network.Heapless.{Heapless, write_pieces_bound}
use project_emerge_dropbot_f.Display.Controller.{
  NetworkPage, BatteryPage, Screen, network_page, battery_page, firmware_update, notice_screen,
}
use project_emerge_dropbot_f.Display.Layout.{
  text_width, centered_x, right_aligned_x, clip_to_row, wrap_message,
}
use project_emerge_dropbot_f.Display.Layout.Fit.{AllFit, wrap_message-fits}
use project_emerge_dropbot_f.Display.Screens.{
  Call, clear, text, outline, fill, line, draw_label_row, draw_split_row, draw_page_frame,
  draw_lines, first_line, or_text, no_address, no_charger, no_reading, written, version_label,
  format_amps, format_volts, input_text, input_current_text, draw_network_page, draw_no_status,
  draw_status, draw_battery_page, draw_progress, draw_message, draw_screen, screen_calls,
  page_row_0, page_row_1, page_row_2, page_row_3,
}

-- Within the 128 by 64 pixels; a character is 6 wide and 10 high.
abbrev pub IsOnPanel : Call → Type 0
IsOnPanel clear = Unit {0}
IsOnPanel (text x y t) = (x + text_width t ≤ 128) × (y + 10 ≤ 64)
IsOnPanel (outline x y width height) = (x + width ≤ 128) × (y + height ≤ 64)
IsOnPanel (fill x y width height) = (x + width ≤ 128) × (y + height ≤ 64)
IsOnPanel (line x y x' y') = ((x < 128) × (y < 64)) × ((x' < 128) × (y' < 64))

unfoldable pub AllOnPanel : List Call → Type 0
AllOnPanel [] = Unit {0}
AllOnPanel (call ∷ calls) = IsOnPanel call × AllOnPanel calls

AllOnPanel-append : (cs ds : List Call) → AllOnPanel cs → AllOnPanel ds → AllOnPanel (cs ++ ds)
unfolding AllOnPanel
AllOnPanel-append [] ds p q = q
AllOnPanel-append (c ∷ cs) ds (p, ps) q = (p, AllOnPanel-append cs ds ps q)

AllOnPanel-cons : (c : Call) (cs : List Call) → IsOnPanel c → AllOnPanel cs → AllOnPanel (c ∷ cs)
unfolding AllOnPanel
AllOnPanel-cons c cs p ps = (p, ps)

AllOnPanel-one : (c : Call) → IsOnPanel c → AllOnPanel (c ∷ [])
unfolding AllOnPanel
AllOnPanel-one c p = (p, tt)

left-fits : (t : Text) → length t ≤ 20 → 4 + text_width t ≤ 128
unfolding text_width
left-fits t h = omega arith

right_aligned_x-fits : (t : Text) → length t ≤ 20 → right_aligned_x t + text_width t ≤ 128
unfolding right_aligned_x text_width
right_aligned_x-fits t h = omega arith

centred-fits : (t : Text) → length t ≤ 21 → centered_x t + text_width t ≤ 128
unfolding centered_x text_width
centred-fits t h = omega arith

clip_to_row-fits : (t : Text) → 40 + text_width (clip_to_row t 40) ≤ 128
unfolding clip_to_row text_width
clip_to_row-fits t = omega (arith, length-take 14 t)

label_row-fits :
    (y : ℕ) (label value : Text)
    → y + 10 ≤ 64
    → length label ≤ 20
    → AllOnPanel (draw_label_row y label value)
unfolding draw_label_row AllOnPanel
label_row-fits y label value low short =
    ((left-fits label short, low), ((clip_to_row-fits value, low), tt))

split_row-fits :
    (y : ℕ) (left right : Text)
    → y + 10 ≤ 64
    → length left ≤ 20
    → length right ≤ 20
    → AllOnPanel (draw_split_row y left right)
unfolding draw_split_row AllOnPanel
split_row-fits y left right low short brief =
    ((left-fits left short, low), ((right_aligned_x-fits right brief, low), tt))

page_frame-fits :
    (title annotation : Text)
    → length title ≤ 20
    → length annotation ≤ 20
    → AllOnPanel (draw_page_frame title annotation)
unfolding draw_page_frame
page_frame-fits title annotation short brief =
    AllOnPanel-cons _ _ (omega arith, omega arith)
      (AllOnPanel-append (draw_split_row 3 title annotation) (line 0 15 127 15 ∷ [])
        (split_row-fits 3 title annotation (omega arith) short brief)
        (AllOnPanel-one (line 0 15 127 15)
          ((omega arith, omega arith), (omega arith, omega arith))))

draw_lines-fits :
    (y : ℕ) (ts : List Text) → y + length ts * 11 ≤ 64 → AllFit ts → AllOnPanel (draw_lines y ts)
unfolding draw_lines AllOnPanel
draw_lines-fits y [] low fit = tt
draw_lines-fits y (t ∷ ts) low (short, centred, fit) =
    ((centred, omega arith), draw_lines-fits (y + 11) ts (omega arith) fit)

first_line-fits : (ts : List Text) → AllFit ts → AllOnPanel (first_line ts)
unfolding first_line AllOnPanel
first_line-fits [] fit = tt
first_line-fits (t ∷ ts) (short, centred, fit) = ((centred, omega arith), tt)

charge_state_label-length : (s : ChargeState) → length (charge_state_label s) ≤ 20
unfolding charge_state_label
charge_state_label-length not_charging = omega arith
charge_state_label-length trickle = omega arith
charge_state_label-length pre_charge = omega arith
charge_state_label-length fast_charge = omega arith
charge_state_label-length taper_charge = omega arith
charge_state_label-length top_off = omega arith
charge_state_label-length done = omega arith
charge_state_label-length ChargeState.unknown = omega arith

module _ (h : Heapless) where
  written_bound : (cap : ℕ) (ts : List Text) → length (written h cap ts) ≤ cap
  written_bound cap ts = write_pieces_bound h cap [] ts (omega arith)

  written_short : (cap : ℕ) (ts : List Text) → cap ≤ 20 → length (written h cap ts) ≤ 20
  written_short cap ts small = omega (arith, written_bound cap ts)

  version_label-length : (t : Text) → length (version_label h t) ≤ 20
  unfolding version_label
  version_label-length t = written_short 16 (codes "v" ∷ t ∷ []) (omega arith)

  network_page-fits : (page : NetworkPage) → AllOnPanel (draw_network_page h page)
  unfolding draw_network_page
  network_page-fits page =
      let version = version_label h page.firmware_version in
      let address = or_text page.ip_address no_address in
      let state = online page.ip_address in
      AllOnPanel-cons clear _ tt (
        AllOnPanel-append (draw_page_frame (codes "NETWORK") state) _
          (page_frame-fits (codes "NETWORK") state (omega arith) (online_short page.ip_address))
          (AllOnPanel-append (draw_label_row page_row_0 (codes "SSID") page.ssid) _
            (label_row-fits page_row_0 (codes "SSID") page.ssid (omega arith) (omega arith))
            (AllOnPanel-append (draw_label_row page_row_1 (codes "IP") address) _
              (label_row-fits page_row_1 (codes "IP") address (omega arith) (omega arith))
              (AllOnPanel-append (draw_label_row page_row_2 (codes "MQTT") page.broker_status) _
                (label_row-fits page_row_2 (codes "MQTT") page.broker_status (omega arith)
                  (omega arith))
                (AllOnPanel-append (draw_label_row page_row_3 (codes "ID") page.device_id)
                  (text (right_aligned_x version) page_row_3 version ∷ [])
                  (label_row-fits page_row_3 (codes "ID") page.device_id (omega arith)
                    (omega arith))
                  (AllOnPanel-one (text (right_aligned_x version) page_row_3 version) (
                    right_aligned_x-fits version (version_label-length page.firmware_version),
                    omega arith,
                  )))))))
    where
      online : Option Text → Text
      online address = elim address [ none ↦ codes "NO LINK" | some a ↦ codes "ONLINE" ]

      online_short : (address : Option Text) → length (online address) ≤ 20
      online_short none = omega arith
      online_short (some a) = omega arith

  no_status-fits : (version : Text) → length version ≤ 20 → AllOnPanel (draw_no_status h version)
  unfolding draw_no_status
  no_status-fits version short =
      AllOnPanel-append (draw_page_frame (codes "BATTERY") no_reading)
        (text (centered_x no_charger) page_row_1 no_charger ∷ draw_split_row page_row_3 [] version)
        (page_frame-fits (codes "BATTERY") no_reading (omega arith) (omega arith))
        (AllOnPanel-cons (text (centered_x no_charger) page_row_1 no_charger) _
          (centred-fits no_charger (omega arith), omega arith)
          (split_row-fits page_row_3 [] version (omega arith) (omega arith) short))

  input_text-length : (s : ChargerStatus) → length (input_text h s) ≤ 20
  unfolding input_text
  input_text-length s =
      if_cases (λ t. length t ≤ 20) (input_present s)
        (written h 16 (codes "VBUS " ∷ format_volts h s.vbus_mv ∷ []))
        (written h 16 (codes "VBUS " ∷ no_reading ∷ [])) (λ _. written_short 16 _ (omega arith))
        (λ _. written_short 16 _ (omega arith))

  format_amps-length : (n : ℕ) → length (format_amps h n) ≤ 20
  unfolding format_amps
  format_amps-length n = written_short 8 _ (omega arith)

  input_current_text-length : (s : ChargerStatus) → length (input_current_text h s) ≤ 20
  unfolding input_current_text
  input_current_text-length s =
      if_cases (λ t. length t ≤ 20) (input_present s) (format_amps h s.input_current_ma) []
        (λ _. format_amps-length s.input_current_ma) (λ _. omega arith)

  status-fits :
      (s : ChargerStatus) (version : Text)
      → length version ≤ 20
      → AllOnPanel (draw_status h s version)
  unfolding draw_status
  status-fits s version short =
      AllOnPanel-append (draw_page_frame _ (charge_state_label s.state)) _
        (page_frame-fits _ (charge_state_label s.state) (written_short 12 _ (omega arith))
          (charge_state_label-length s.state))
        (AllOnPanel-append (draw_split_row page_row_0 _ (format_amps h s.charge_current_ma)) _
          (split_row-fits page_row_0 _ (format_amps h s.charge_current_ma) (omega arith)
            (written_short 16 _ (omega arith)) (format_amps-length s.charge_current_ma))
          (AllOnPanel-append (draw_label_row page_row_1 (codes "CELL") _) _
            (label_row-fits page_row_1 (codes "CELL") _ (omega arith) (omega arith))
            (AllOnPanel-append (draw_split_row page_row_2 (input_text h s) (input_current_text h s))
              _
              (split_row-fits page_row_2 (input_text h s) (input_current_text h s) (omega arith)
                (input_text-length s) (input_current_text-length s))
              (split_row-fits page_row_3 _ version (omega arith) (written_short 20 _ (omega arith))
                short))))

  battery_page-fits : (page : BatteryPage) → AllOnPanel (draw_battery_page h page)
  unfolding draw_battery_page
  battery_page-fits page = AllOnPanel-cons clear _ tt (by_status page.status)
    where
      version : Text
      version = version_label h page.firmware_version

      by_status :
          (status : Option ChargerStatus)
          → AllOnPanel
              (elim status [ none ↦ draw_no_status h version | some s ↦ draw_status h s version ])
      by_status none = no_status-fits version (version_label-length page.firmware_version)
      by_status (some s) = status-fits s version (version_label-length page.firmware_version)

  progress-fits :
      (lines : List Text) (percent : ℕ) → AllFit lines → AllOnPanel (draw_progress h lines percent)
  unfolding draw_progress
  progress-fits lines percent fit =
      AllOnPanel-append (first_line lines) _ (first_line-fits lines fit) (
        AllOnPanel-cons _ _ (omega arith, omega arith)
          (AllOnPanel-cons _ _ (omega arith, omega arith)
            (AllOnPanel-one _ (centred-fits _ (short 8 _ (omega arith)), omega arith))))
    where
      short : (cap : ℕ) (ts : List Text) → cap ≤ 20 → length (written h cap ts) ≤ 21
      short cap ts small = omega (arith, written_short cap ts small)

  message-fits :
      (lines : List Text) → length lines ≤ 3 → AllFit lines → AllOnPanel (draw_message h lines)
  unfolding draw_message
  message-fits lines few fit = draw_lines-fits _ lines (omega arith) fit

  draw_screen-fits :
      (title message : Text) (percent : Option ℕ)
      → length title ≤ 21
      → AllOnPanel (draw_screen h title message percent)
  unfolding draw_screen
  draw_screen-fits title message percent short = AllOnPanel-cons clear _ tt (
      AllOnPanel-cons (outline 0 0 128 64) _ (omega arith, omega arith)
        (AllOnPanel-cons (text (centered_x title) 3 title) _ (centred-fits title short, omega arith)
          (AllOnPanel-cons (line 0 16 127 16) _
            ((omega arith, omega arith), (omega arith, omega arith)) (body percent))))
    where
      body :
          (percent : Option ℕ)
          → AllOnPanel (elim percent [
            | none ↦ draw_message h (wrap_message message)
            | some known ↦ draw_progress h (wrap_message message) known
          ])
      body none =
          message-fits (wrap_message message) (wrap_message-fits message).0
            (wrap_message-fits message).1
      body (some known) = progress-fits (wrap_message message) known (wrap_message-fits message).1

  -- A notice has a title that is not wider than the panel.
  abbrev pub HasShortTitle : Screen → Type 0
  HasShortTitle (notice_screen title message) = length title ≤ 21
  HasShortTitle _ = Unit {0}

  -- Whatever a page, an update or a notice is given -- any address, status, version, percentage or
  -- message, and any title of at most 21 characters -- every text, outline, fill and line that is drawn
  -- for it lies within the panel's 128 by 64 pixels.
  pub screen_calls-AllOnPanel :
      (screen : Screen) → HasShortTitle screen → AllOnPanel (screen_calls h screen)
  unfolding screen_calls
  screen_calls-AllOnPanel (network_page page) short = network_page-fits page
  screen_calls-AllOnPanel (battery_page page) short = battery_page-fits page
  screen_calls-AllOnPanel (firmware_update message percent) short =
      draw_screen-fits (codes "FIRMWARE UPDATE") message percent (omega arith)
  screen_calls-AllOnPanel (notice_screen title message) short =
      draw_screen-fits title message none short
