-- ===== src/Ota/Task/Tests.antt =====
-- A server that does not answer, and the slots that are confirmed.
use project_emerge_dropbot_f.Prelude.{Result, ◌≡◌, refl, some, inr, List, [], ◌∷◌, ok, err, Option}
use project_emerge_dropbot_f.Prelude.Text.{codes}
use project_emerge_dropbot_f.Sync.{option_watch}
use project_emerge_dropbot_f.Network.Heapless.{list_heapless}
use project_emerge_dropbot_f.Ota.Status.{OtaStatus, idle}
use project_emerge_dropbot_f.Ota.Manager.{World, Session}
use project_emerge_dropbot_f.Ota.Task.{
  confirm, pending_verify, another, open_table, read_state, set_valid, OtaImageState, Wake,
  network_ready, check, configured, start, run,
}
use project_emerge_dropbot_f.Ota.Task.Release.{IsConfirmation, Promises, run-start-Promises}

confirmed :
    confirm {T = Unit {0}} (ok tt) (ok pending_verify) ≡ open_table ∷ read_state ∷ set_valid ∷ []
unfolding confirm
confirmed = refl

left : confirm {T = Unit {0}} (ok tt) (ok another) ≡ open_table ∷ read_state ∷ []
unfolding confirm
left = refl

abbrev silent : World (Unit {0}) (Unit {0}) (Unit {0})
silent = record {
  on_request = λ cs url. err tt;
  on_send = λ cs. err tt;
  on_read_body = λ cs. err tt;
  parse = λ t. err tt;
  on_open = λ cs. err tt;
  on_next_partition = λ cs. err tt;
  on_flash = λ cs c. err tt;
}

abbrev began : Session (Option OtaStatus)
began = record { watch = some idle; calls = [] }

abbrev wakes : List Wake
wakes = check ∷ network_ready ∷ check ∷ configured (codes "10.0.0.2:80") ∷ check ∷ check ∷ []

abbrev opened : Result (Unit {0}) (Unit {0})
opened = ok tt

abbrev state : Result (Unit {0}) OtaImageState
state = ok pending_verify

run-start-Promises_example :
    let end =
      run list_heapless option_watch silent (codes "1.0") wakes (start opened state began) in
    IsConfirmation opened state end.boot_calls
    × Promises list_heapless option_watch silent (codes "1.0") began end.phase end.session
run-start-Promises_example =
    run-start-Promises list_heapless option_watch silent (codes "1.0") opened state began wakes
      (inr refl)
