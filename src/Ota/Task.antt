-- ===== src/Ota/Task.antt =====
-- src/tasks/ota_manager.rs: the task around its rounds -- the confirmation of the slot that was booted,
-- the waits, and when a round is made.
pub mod Release
mod Tests
use project_emerge_dropbot_f.Prelude.{
  Bool, true, false, Option, none, some, List, [], ◌∷◌, Result, ok, err,
}
use project_emerge_dropbot_f.Prelude.Text.{Text}
use project_emerge_dropbot_f.Sync.{Watch}
use project_emerge_dropbot_f.Network.Heapless.{Heapless}
use project_emerge_dropbot_f.Ota.Status.{OtaStatus}
use project_emerge_dropbot_f.Ota.Manager.{World, Session, check_and_apply_update, conclude}

-- The states of a slot that the source names, and any other.
pub data OtaImageState : Type 0 where
  new_image pending_verify another : OtaImageState

-- What the boot does to the slot: the partition table is opened, the state of the slot is read, and it
-- is marked as valid.
pub data BootCall : Type 0 where
  open_table read_state set_valid : BootCall

unfoldable pub confirm_state : {T : Type 0} → Result T OtaImageState → List BootCall
confirm_state (ok new_image) = read_state ∷ set_valid ∷ []
confirm_state (ok pending_verify) = read_state ∷ set_valid ∷ []
confirm_state (ok another) = read_state ∷ []
confirm_state (err e) = read_state ∷ []

-- By what opening the partition table and reading the state give, the first call first. What marking the
-- slot gives is only logged.
unfoldable pub confirm : {T : Type 0} → Result T (Unit {0}) → Result T OtaImageState → List BootCall
unfolding confirm_state
confirm (ok _) state = open_table ∷ confirm_state state
confirm (err e) state = open_table ∷ []

pub data Phase : Type 0 where
  waiting_network waiting_configuration waiting_check restarted : Phase

-- The network is up, a configuration is sent to the watch, or the poll timer or a request ends.
pub data Wake : Type 0 where
  network_ready check : Wake
  configured : Text → Wake

-- The calls of the boot come before those of the session.
pub record OtaTask (W : Type 0) : Type 0 where
  pub boot_calls : List BootCall
  pub phase : Phase
  pub ota_configuration : Option Text
  pub session : Session W

-- `get` of the configuration goes on at once where there is one.
unfoldable pub after_network : Option Text → Phase
after_network none = waiting_configuration
after_network (some server) = waiting_check

-- Whether a check restarts the board.
unfoldable pub restarts : {X : Type 0} → Result X Bool → Bool
restarts (ok installed) = installed
restarts (err e) = false

-- A restart ends the task.
abbrev pub phase_after : Bool → Phase
phase_after true = restarted
phase_after false = waiting_check

module _ {H J T W : Type 0} (h : Heapless) (watch : Watch W OtaStatus) (world : World H J T)
    (firmware_version : Text) where
  unfoldable pub check_now : Option Text → OtaTask W → OtaTask W
  unfolding restarts
  check_now none t = t
  check_now (some server) t =
      let checked = check_and_apply_update h watch world firmware_version server t.session in
      record t {
        phase = phase_after (restarts checked.1);
        session = conclude h watch world checked;
      }

  unfoldable pub wake : Phase → Wake → OtaTask W → OtaTask W
  unfolding after_network check_now
  wake restarted w t = t
  wake waiting_network network_ready t = record t { phase = after_network t.ota_configuration }
  wake waiting_configuration (configured server) t = record t {
    phase = waiting_check;
    ota_configuration = some server;
  }
  wake phase (configured server) t = record t { ota_configuration = some server }
  wake waiting_check check t = check_now t.ota_configuration t
  wake _ _ t = t

  unfoldable pub run : List Wake → OtaTask W → OtaTask W
  unfolding wake
  run [] t = t
  run (w ∷ ws) t = run ws (wake t.phase w t)

-- The task up to its first wait: the slot that was booted is confirmed first.
unfoldable pub start :
    {T W : Type 0} → Result T (Unit {0}) → Result T OtaImageState → Session W → OtaTask W
unfolding confirm
start opened state s = record {
  boot_calls = confirm opened state;
  phase = waiting_network;
  ota_configuration = none;
  session = s;
}
