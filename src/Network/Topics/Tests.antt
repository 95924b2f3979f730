-- ===== src/Network/Topics/Tests.antt =====
-- A board with its MAC address, and the theorems on its ID and topics.
use project_emerge_dropbot_f.Prelude.{◌≡◌, ◌↔◌, refl, some, List, [], ◌∷◌, arith, ℕ}
use project_emerge_dropbot_f.Prelude.Text.{Text, codes}
use project_emerge_dropbot_f.Network.Heapless.{list_heapless, list_push, write_pieces}
use project_emerge_dropbot_f.Network.Device.{device_id, IsIdOf, device_id-IsIdOf}
use project_emerge_dropbot_f.Network.Topics.{ota_config, init, resolve}
use project_emerge_dropbot_f.Network.Topics.Resolve.{topic_of, resolve_iff}

abbrev mac : List ℕ
mac = 0xa0 ∷ 0xb1 ∷ 0xc2 ∷ 0x0d ∷ 0x4e ∷ 0xff ∷ []

abbrev board_id : Text
board_id = codes "0D4EFF"

abbrev other_id : Text
other_id = codes "0D4F00"

device_id_of_mac : device_id list_heapless mac ≡ board_id
unfolding device_id write_pieces list_push
device_id_of_mac = refl

motors_topic : (init list_heapless board_id).motor_command ≡ codes "/motors/0D4EFF"
unfolding init write_pieces list_push
motors_topic = refl

device_id-IsIdOf_example : IsIdOf (device_id list_heapless mac) 0x0d 0x4e 0xff
device_id-IsIdOf_example =
    device_id-IsIdOf list_heapless 0xa0 0xb1 0xc2 0x0d 0x4e 0xff (omega arith) (omega arith)
      (omega arith)

resolve_iff_example :
    (resolve (init list_heapless board_id) (codes "/config/ota") ≡ some ota_config)
    ↔ (codes "/config/ota" ≡ topic_of (init list_heapless board_id) ota_config)
resolve_iff_example = resolve_iff list_heapless board_id (codes "/config/ota") ota_config refl
