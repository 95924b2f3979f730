-- ===== src/Network/Monitor.antt =====
-- src/tasks/network_monitor.rs: the task that announces the board's address. The network stack is not
-- part of this repository: what its waits give is arbitrary, with the address where there is one.
use project_emerge_dropbot_f.Prelude.{Bool, true, false, Option, none, some, List, [], ◌∷◌}

pub data Phase : Type 0 where
  waiting_up waiting_down : Phase

pub data Wake (A : Type 0) : Type 0 where
  config_up : Option A → Wake A
  config_down : Wake A

-- What was signalled last, and whether the network has been ready.
pub record NetworkMonitor (A : Type 0) : Type 0 where
  pub phase : Phase
  pub network_status : Option (Option A)
  pub network_ready : Bool

module _ {A : Type 0} where
  abbrev pub start : NetworkMonitor A
  start = record { phase = waiting_up; network_status = none; network_ready = false }

  unfoldable pub signal_address : Option A → NetworkMonitor A → NetworkMonitor A
  signal_address none m = m
  signal_address (some address) m = record m { network_status = some (some address) }

  -- A wake-up that is not of the phase does not occur, and changes nothing.
  unfoldable pub wake : Phase → Wake A → NetworkMonitor A → NetworkMonitor A
  unfolding signal_address
  wake waiting_up (config_up config) m = record (signal_address config m) {
    phase = waiting_down;
    network_ready = true;
  }
  wake waiting_down config_down m = record m { phase = waiting_up; network_status = some none }
  wake _ _ m = m

  unfoldable pub run : List (Wake A) → NetworkMonitor A → NetworkMonitor A
  unfolding wake
  run [] m = m
  run (w ∷ ws) m = run ws (wake m.phase w m)
