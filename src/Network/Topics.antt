-- ===== src/Network/Topics.antt =====
-- src/topics.rs: the MQTT topics, formatted once from the device ID, and the way back from a topic
-- received off the wire to its subscription.
pub mod Resolve
mod Tests
use project_emerge_dropbot_f.Prelude.{
  ℕ, ◌+◌, ◌≡◌, ◌≢◌, ◌↔◌, refl, sym, Bool, true, false, Option, none, some, List, [], ◌∷◌, ◌++◌, map,
  length, if◌then◌else◌, arith,
}
use project_emerge_dropbot_f.Prelude.Text.{Text, codes, text_eq}
use project_emerge_dropbot_f.Network.Heapless.{Heapless, write_pieces, write_pieces-fits}
use project_emerge_dropbot_f.Network.Device.{device_id_len}

abbrev pub telemetry_prefix : Text
telemetry_prefix = codes "/telemetry/"

abbrev pub imu_stream_prefix : Text
imu_stream_prefix = codes "/imu/"

abbrev pub motor_command_prefix : Text
motor_command_prefix = codes "/motors/"

abbrev pub ota_check_prefix : Text
ota_check_prefix = codes "/ota/check/"

abbrev pub ota_config_topic : Text
ota_config_topic = codes "/config/ota"

abbrev pub motor_config_topic : Text
motor_config_topic = codes "/config/motors"

pub data InboundTopic : Type 0 where
  motor_command motor_configuration ota_check ota_config : InboundTopic

unfoldable pub inbound_label : InboundTopic → Text
inbound_label motor_command = codes "motors"
inbound_label motor_configuration = codes "motors-config"
inbound_label ota_check = codes "ota-check"
inbound_label ota_config = codes "ota-config"

pub record Topics : Type 0 where
  pub telemetry : Text
  pub imu_stream : Text
  pub motor_command : Text
  pub ota_check : Text

-- The buffer of each topic is sized to its prefix and the ID.
unfoldable pub build : Heapless → Text → Text → Text
build h prefix id = (write_pieces h (length prefix + device_id_len) [] (prefix ∷ id ∷ [])).0

unfoldable pub init : Heapless → Text → Topics
unfolding build
init h id = record {
  telemetry = build h telemetry_prefix id;
  imu_stream = build h imu_stream_prefix id;
  motor_command = build h motor_command_prefix id;
  ota_check = build h ota_check_prefix id;
}

unfoldable pub subscriptions : Topics → List Text
subscriptions t = t.motor_command ∷ t.ota_check ∷ ota_config_topic ∷ motor_config_topic ∷ []

unfoldable pub resolve : Topics → Text → Option InboundTopic
resolve t topic =
    if text_eq topic t.motor_command
    then some InboundTopic.motor_command
    else if text_eq topic t.ota_check
    then some InboundTopic.ota_check
    else if text_eq topic ota_config_topic
    then some ota_config
    else if text_eq topic motor_config_topic
    then some motor_configuration
    else none
