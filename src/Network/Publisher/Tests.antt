-- ===== src/Network/Publisher/Tests.antt =====
-- A stream of two samples.
use project_emerge_dropbot_f.Prelude.{ℕ, refl, Option, some, List, [], ◌∷◌}
use project_emerge_dropbot_f.Prelude.Text.{Text, codes}
use project_emerge_dropbot_f.Sync.{list_channel}
use project_emerge_dropbot_f.Network.Heapless.{list_heapless}
use project_emerge_dropbot_f.Network.Session.{PublishMessage}
use project_emerge_dropbot_f.Network.Publisher.{
  waiting_broker, publishing, sampled, Publisher, publish_imu_stream, run,
}
use project_emerge_dropbot_f.Network.Publisher.Outcomes.{IsSettled, sample-outcomes}

abbrev topic : Text
topic = codes "/imu/0a"

abbrev serialize : ℕ → Option Text
serialize n = some (n ∷ [])

abbrev at_publishing : Publisher (List PublishMessage)
at_publishing = record { phase = publishing; mqtt_publish = []; dropped = 0 }

abbrev at_waiting : Publisher (List PublishMessage)
at_waiting = record { phase = waiting_broker; mqtt_publish = []; dropped = 0 }

sample-outcomes_example :
    IsSettled (list_channel 5) list_heapless topic serialize (serialize 7) at_publishing (
      run
        (list_channel 5)
        list_heapless
        topic
        serialize
        (publish_imu_stream (list_channel 5) list_heapless topic serialize)
        (sampled 7 ∷ [])
        at_publishing)
sample-outcomes_example =
    sample-outcomes (list_channel 5) list_heapless topic serialize 7 at_publishing refl
