-- ===== src/Network/Dispatch/Tests.antt =====
-- Two messages: a malformed command, and a configuration of the update server.
use project_emerge_dropbot_f.Prelude.{ℕ, ◌≡◌, refl, false, Option, none, some, List, [], ◌∷◌}
use project_emerge_dropbot_f.Prelude.Text.{codes}
use project_emerge_dropbot_f.Sync.{option_watch}
use project_emerge_dropbot_f.Motor.Task.{stop_command}
use project_emerge_dropbot_f.Network.Topics.{motor_command, ota_config}
use project_emerge_dropbot_f.Network.Configuration.{
  OtaConfiguration, is_valid, any_forbidden, is_forbidden,
}
use project_emerge_dropbot_f.Network.Dispatch.{ReceivedMessage, Parsers, MqttClient, run}
use project_emerge_dropbot_f.Network.Dispatch.Delivery.{IsDelivered, run-IsDelivered}

abbrev bench : OtaConfiguration
bench = record { server = codes "ota.local" }

abbrev parsers : Parsers ℕ
parsers = record {
  from_utf8 = λ t. elim t [ [] ↦ none | b ∷ bs ↦ some (b ∷ bs) ];
  drive_command = λ t. some stop_command;
  motors_configuration = λ t. none;
  ota_configuration = λ t. some (record { server = t });
}

abbrev start : MqttClient (Option OtaConfiguration) ℕ
start = record {
  motor_commands = [];
  motor_configurations = [];
  ota_check_request = false;
  ota_configuration = none;
}

abbrev messages : List ReceivedMessage
messages =
    record { topic = motor_command; payload = [] }
    ∷ record { topic = motor_command; payload = codes "\"Stop\"" }
    ∷ record { topic = ota_config; payload = codes "ota.local" }
    ∷ []

run_server : (run option_watch parsers messages start).ota_configuration ≡ some bench
unfolding run is_valid any_forbidden is_forbidden
run_server = refl

run_commands : (run option_watch parsers messages start).motor_commands ≡ stop_command ∷ []
unfolding run is_valid any_forbidden is_forbidden
run_commands = refl

run-IsDelivered_example :
    IsDelivered option_watch parsers start (run option_watch parsers messages start) messages
run-IsDelivered_example = run-IsDelivered option_watch parsers messages start
