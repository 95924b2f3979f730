-- ===== src/Network/Dispatch.antt =====
-- src/tasks/mqtt_client.rs: the task that parses what arrives on the subscribed topics and hands it
-- to the other tasks. The UTF-8 check and the JSON parser are not part of this repository: they are
-- arbitrary functions. A send to a channel waits for room, so what is sent is kept as a list, the
-- earliest first.
pub mod Delivery
mod Tests
use project_emerge_dropbot_f.Prelude.{
  ℕ, ◌≡◌, refl, Bool, true, false, ◌&&◌, ◌||◌, Option, none, some, List, [], ◌∷◌, ◌++◌,
  if◌then◌else◌, arith,
}
use project_emerge_dropbot_f.Prelude.Text.{Text}
use project_emerge_dropbot_f.Sync.{Watch}
use project_emerge_dropbot_f.Network.Topics.{
  InboundTopic, motor_command, motor_configuration, ota_check, ota_config,
}
use project_emerge_dropbot_f.Network.Configuration.{OtaConfiguration, is_valid}
use project_emerge_dropbot_f.Motor.Task.{DriveCommand, MotorsConfiguration}

-- A message that the session received: what its topic means, and its bytes.
pub record ReceivedMessage : Type 0 where
  pub topic : InboundTopic
  pub payload : Text

pub record Parsers (R : Type 0) : Type 0 where
  pub from_utf8 : Text → Option Text
  pub drive_command : Text → Option (DriveCommand R)
  pub motors_configuration : Text → Option (MotorsConfiguration R)
  pub ota_configuration : Text → Option OtaConfiguration

-- What the task has sent to the motor task, and where it tells the update task.
pub record MqttClient (W R : Type 0) : Type 0 where
  pub motor_commands : List (DriveCommand R)
  pub motor_configurations : List (MotorsConfiguration R)
  pub ota_check_request : Bool
  pub ota_configuration : W

abbrev pub push_parsed : {A : Type 0} → Option A → List A → List A
push_parsed none xs = xs
push_parsed (some a) xs = xs ++ a ∷ []

module _ {W : Type 0} (watch : Watch W OtaConfiguration) where
  unfoldable pub configure_ota : Option OtaConfiguration → W → W
  configure_ota none w = w
  configure_ota (some c) w = if is_valid c then watch.send w c else w

module _ {W R : Type 0} (watch : Watch W OtaConfiguration) (parsers : Parsers R) where
  unfoldable pub on_text : InboundTopic → Text → MqttClient W R → MqttClient W R
  unfolding configure_ota
  on_text motor_command payload s = record s {
    motor_commands = push_parsed (parsers.drive_command payload) s.motor_commands;
  }
  on_text motor_configuration payload s = record s {
    motor_configurations =
        push_parsed (parsers.motors_configuration payload) s.motor_configurations;
  }
  on_text ota_check payload s = record s { ota_check_request = true }
  on_text ota_config payload s = record s {
    ota_configuration = configure_ota watch (parsers.ota_configuration payload) s.ota_configuration;
  }

  -- A payload that is no UTF-8 is ignored.
  unfoldable pub on_payload : InboundTopic → Option Text → MqttClient W R → MqttClient W R
  unfolding on_text
  on_payload topic none s = s
  on_payload topic (some payload) s = on_text topic payload s

  unfoldable pub dispatch : ReceivedMessage → MqttClient W R → MqttClient W R
  unfolding on_payload
  dispatch message s = on_payload message.topic (parsers.from_utf8 message.payload) s

  -- The loop over the messages, the earliest first.
  unfoldable pub run : List ReceivedMessage → MqttClient W R → MqttClient W R
  unfolding dispatch
  run [] s = s
  run (m ∷ ms) s = run ms (dispatch m s)
