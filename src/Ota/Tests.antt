-- ===== src/Ota/Tests.antt =====
-- The theorems on the progress of an update, at one megabyte.
use project_emerge_dropbot_f.Prelude.{◌≡◌, some, min, ◌*◌, ◌/◌, arith}
use project_emerge_dropbot_f.Ota.Status.{downloading, percent, percent-exact}

percent-exact_example :
    percent (downloading 524288 1048576) ≡ some (min (524288 * 100 / 1048576) 100)
percent-exact_example = percent-exact 524288 1048576 (omega arith) (omega arith)
