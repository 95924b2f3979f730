-- ===== src/Network/Configuration/Tests.antt =====
-- The theorem on the URL, at a server with a port.
use project_emerge_dropbot_f.Prelude.{◌≡◌, refl, true, false, some, arith}
use project_emerge_dropbot_f.Prelude.Text.{Text, codes}
use project_emerge_dropbot_f.Network.Heapless.{list_heapless}
use project_emerge_dropbot_f.Network.Configuration.{
  OtaConfiguration, is_valid, is_forbidden, any_forbidden, authority, authority-manifest_url,
}
use project_emerge_dropbot_f.Ota.Manager.{manifest_url}

abbrev bench : OtaConfiguration
bench = record { server = codes "192.168.8.1:8787" }

bench_valid : is_valid bench ≡ true
unfolding is_valid any_forbidden is_forbidden
bench_valid = refl

slash_invalid : is_valid (record { server = codes "ota.local/x" }) ≡ false
unfolding is_valid any_forbidden is_forbidden
slash_invalid = refl

authority-manifest_url_example :
    (url : Text) × (manifest_url list_heapless bench.server ≡ some url)
    × (authority url ≡ some bench.server)
authority-manifest_url_example =
    authority-manifest_url list_heapless bench (omega arith) bench_valid
