-- ===== src/Network/Session/Tests.antt =====
-- A session that opens, with a message from before it in the queue.
use project_emerge_dropbot_f.Prelude.{ℕ, ◌≡◌, ◌⊎◌, refl, true, Option, none, some, List, [], ◌∷◌}
use project_emerge_dropbot_f.Prelude.Text.{codes}
use project_emerge_dropbot_f.Sync.{option_watch, list_channel}
use project_emerge_dropbot_f.Network.Heapless.{list_heapless}
use project_emerge_dropbot_f.Network.Topics.{Topics}
use project_emerge_dropbot_f.Network.Dispatch.{ReceivedMessage}
use project_emerge_dropbot_f.Network.Session.{
  BrokerStatus, connected, PublishMessage, opening, serving, Wake, network_ready, tcp_connected,
  session_opened, subscribed, received, published, offered, MqttManager, start, step, run,
}
use project_emerge_dropbot_f.Network.Session.Status.{status_of, run-start-Told}
use project_emerge_dropbot_f.Network.Session.Stream.{stream, accepted, up, run-stream}
use project_emerge_dropbot_f.Network.Session.Receive.{Delivered, Dropped, receive-outcomes}

abbrev topics : Topics
topics = record {
  telemetry = codes "/telemetry/0a";
  imu_stream = codes "/imu/0a";
  motor_command = codes "/motors/0a";
  ota_check = codes "/ota/check/0a";
}

abbrev message : ℕ → PublishMessage
message n = record { topic = codes "/telemetry/0a"; payload = n ∷ [] }

abbrev at_opening : MqttManager (Option BrokerStatus) (List PublishMessage) (List ReceivedMessage)
at_opening = record {
  phase = opening;
  broker_status = none;
  mqtt_publish = message 1 ∷ [];
  mqtt_receive = [];
  calls = [];
}

abbrev at_serving : MqttManager (Option BrokerStatus) (List PublishMessage) (List ReceivedMessage)
at_serving = record {
  phase = serving;
  broker_status = some connected;
  mqtt_publish = [];
  mqtt_receive = [];
  calls = [];
}

abbrev wakes : List Wake
wakes = offered (message 2) ∷ offered (message 3) ∷ published true ∷ []

run-start-Told_example :
    (run option_watch
      (list_channel 5)
      (list_channel 2)
      list_heapless
      topics
      (network_ready ∷ tcp_connected true ∷ session_opened true ∷ subscribed true ∷ [])
      (start option_watch
        (list_channel 5)
        (list_channel 2)
        list_heapless
        topics
        none
        []
        [])).broker_status
    ≡ some (
        status_of
          (run option_watch
            (list_channel 5)
            (list_channel 2)
            list_heapless
            topics
            (network_ready ∷ tcp_connected true ∷ session_opened true ∷ subscribed true ∷ [])
            (start option_watch
              (list_channel 5)
              (list_channel 2)
              list_heapless
              topics
              none
              []
              [])).phase)
run-start-Told_example =
    run-start-Told option_watch (list_channel 5) (list_channel 2) list_heapless topics
      (network_ready ∷ tcp_connected true ∷ session_opened true ∷ subscribed true ∷ []) none [] []

run-stream_example :
    let s = up option_watch (list_channel 5) (list_channel 2) list_heapless topics at_opening in
    let t = run option_watch (list_channel 5) (list_channel 2) list_heapless topics wakes s in
    (t.phase ≡ serving)
    × (stream option_watch (list_channel 5) (list_channel 2) list_heapless topics t
        ≡ accepted option_watch (list_channel 5) (list_channel 2) list_heapless topics wakes s)
run-stream_example =
    run-stream option_watch (list_channel 5) (list_channel 2) list_heapless topics at_opening wakes
      refl refl

receive-outcomes_example :
    let t =
      step option_watch
        (list_channel 5)
        (list_channel 2)
        list_heapless
        topics
        (received (codes "/motors/0a") (codes "{}"))
        at_serving in
    (Delivered option_watch
        (list_channel 5)
        (list_channel 2)
        list_heapless
        topics
        (codes "/motors/0a")
        (codes "{}")
        []
        t.mqtt_receive
      ⊎ Dropped option_watch
          (list_channel 5)
          (list_channel 2)
          list_heapless
          topics
          (codes "/motors/0a")
          (codes "{}")
          []
          t.mqtt_receive)
    × (t ≡ record at_serving { mqtt_receive = t.mqtt_receive })
receive-outcomes_example =
    receive-outcomes option_watch (list_channel 5) (list_channel 2) list_heapless topics
      (codes "/motors/0a") (codes "{}") at_serving refl
