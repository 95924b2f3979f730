-- ===== src/Ota/Manager/Tests.antt =====
-- A server with an image of four bytes in two chunks, for a board of another version.
use project_emerge_dropbot_f.Prelude.{◌≡◌, refl, true, Option, some, [], ◌∷◌, ok}
use project_emerge_dropbot_f.Prelude.Text.{Text, codes, text_eq}
use project_emerge_dropbot_f.Sync.{option_watch}
use project_emerge_dropbot_f.Network.Heapless.{list_heapless, list_push, write_pieces}
use project_emerge_dropbot_f.Ota.Status.{OtaStatus, FirmwareManifest, idle, applying, percent}
use project_emerge_dropbot_f.Ota.Manager.{
  Reply, World, Session, option_eq, status_eq, show_progress, check_and_apply_update, round,
}
use project_emerge_dropbot_f.Ota.Manager.Ensures.{Ensures}
use project_emerge_dropbot_f.Ota.Manager.Download.{image}
use project_emerge_dropbot_f.Ota.Manager.Round.{
  Stays, Checked, Settled, check_and_apply_update-Ensures, round-Settled,
}

abbrev manifest : FirmwareManifest
manifest = record { version = codes "2.0"; url = codes "/fw.bin"; size = 4 }

abbrev reply : Reply (Unit {0})
reply = record { is_successful = true; reads = ok (1 ∷ 2 ∷ 3 ∷ []) ∷ ok (4 ∷ []) ∷ [] }

abbrev server : World (Unit {0}) (Unit {0}) (Unit {0})
server = record {
  on_request = λ cs url. ok tt;
  on_send = λ cs. ok reply;
  on_read_body = λ cs. ok [];
  parse = λ t. ok manifest;
  on_open = λ cs. ok tt;
  on_next_partition = λ cs. ok 100;
  on_flash = λ cs c. ok tt;
}

abbrev start : Session (Option OtaStatus)
start = record { watch = some idle; calls = [] }

abbrev boot : Text
boot = codes "1.0"

abbrev host : Text
host = codes "10.0.0.2:80"

abbrev settled : Session (Option OtaStatus)
settled = round list_heapless option_watch server boot host start

settled_image : image settled.calls ≡ 1 ∷ 2 ∷ 3 ∷ 4 ∷ []
unfolding round check_and_apply_update write_pieces list_push text_eq show_progress option_eq
    percent status_eq
settled_image = refl

settled_watch : settled.watch ≡ some applying
unfolding round check_and_apply_update write_pieces list_push text_eq show_progress option_eq
    percent status_eq
settled_watch = refl

check_and_apply_update-Ensures_example :
    Ensures
      (Stays list_heapless option_watch server boot host)
      (Checked list_heapless option_watch server boot host)
      (check_and_apply_update list_heapless option_watch server boot host start)
check_and_apply_update-Ensures_example =
    check_and_apply_update-Ensures list_heapless option_watch server boot host start
      (refl, (tt, refl))

round-Settled_example :
    Settled list_heapless option_watch server boot host
      (round list_heapless option_watch server boot host start)
round-Settled_example =
    round-Settled list_heapless option_watch server boot host start (refl, (tt, refl))
