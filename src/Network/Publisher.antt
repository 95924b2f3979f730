-- ===== src/Network/Publisher.antt =====
-- src/tasks/telemetry_publisher.rs and src/tasks/imu_publisher.rs: the two tasks that serialize samples
-- into messages for the session. The serializer is not part of this repository: an arbitrary
-- function. While a task waits for a sample, the session takes messages from the queue.
pub mod Outcomes
mod Tests
use project_emerge_dropbot_f.Prelude.{ℕ, ◌+◌, Option, none, some, List, [], ◌∷◌}
use project_emerge_dropbot_f.Prelude.Text.{Text}
use project_emerge_dropbot_f.Prelude.Words.{u32}
use project_emerge_dropbot_f.Sync.{Channel}
use project_emerge_dropbot_f.Network.Heapless.{Heapless}
use project_emerge_dropbot_f.Network.Session.{
  BrokerStatus, disconnected, connected, PublishMessage, payload_capacity, or_drop,
}

-- Both tasks first wait until the broker was connected once.
pub data Phase : Type 0 where
  waiting_broker publishing : Phase

pub data Wake (T : Type 0) : Type 0 where
  seen : BrokerStatus → Wake T
  sampled : T → Wake T
  -- The session takes a message.
  taken : Wake T

-- `dropped` is of the task for the stream of the IMU; the other task has none and leaves it.
pub record Publisher (Q : Type 0) : Type 0 where
  pub phase : Phase
  pub mqtt_publish : Q
  pub dropped : ℕ

module _ {Q T : Type 0} (outbox : Channel Q PublishMessage) (h : Heapless) (topic : Text)
    (serialize : T → Option Text) where
  -- The message of a sample: `none` where it is not serialized, or too large for a message.
  unfoldable pub message_of_buffer : Option Text → Option PublishMessage
  message_of_buffer none = none
  message_of_buffer (some payload) = some (record { topic = topic; payload = payload })

  unfoldable pub message_of_json : Option Text → Option PublishMessage
  unfolding message_of_buffer
  message_of_json none = none
  message_of_json (some buffer) = message_of_buffer (h.push payload_capacity [] buffer)

  unfoldable pub message_of : T → Option PublishMessage
  unfolding message_of_json
  message_of sample = message_of_json (serialize sample)

  -- A status that does not fit the queue is lost.
  unfoldable pub publish_telemetry : Option PublishMessage → Publisher Q → Publisher Q
  publish_telemetry none s = s
  publish_telemetry (some m) s = record s {
    mqtt_publish = or_drop (outbox.try_send s.mqtt_publish m) s.mqtt_publish;
  }

  -- So is a sample of the stream, which is counted, in 32 bits.
  unfoldable pub or_count : Option Q → Publisher Q → Publisher Q
  or_count none s = record s { dropped = u32 (s.dropped + 1) }
  or_count (some q) s = record s { mqtt_publish = q }

  unfoldable pub publish_imu_stream : Option PublishMessage → Publisher Q → Publisher Q
  unfolding or_count
  publish_imu_stream none s = s
  publish_imu_stream (some m) s = or_count (outbox.try_send s.mqtt_publish m) s

  -- A task's wake-ups, with what it does with a message.
  unfoldable pub take_one : Option (PublishMessage × Q) → Publisher Q → Publisher Q
  take_one none s = s
  take_one (some (m, q)) s = record s { mqtt_publish = q }

  unfoldable pub wake :
      (Option PublishMessage → Publisher Q → Publisher Q)
      → Phase
      → Wake T
      → Publisher Q
      → Publisher Q
  unfolding message_of take_one
  wake publish phase taken s = take_one (outbox.try_receive s.mqtt_publish) s
  wake publish waiting_broker (seen connected) s = record s { phase = publishing }
  wake publish publishing (sampled sample) s = publish (message_of sample) s
  wake publish _ _ s = s

  unfoldable pub run :
      (Option PublishMessage → Publisher Q → Publisher Q)
      → List (Wake T)
      → Publisher Q
      → Publisher Q
  unfolding wake
  run publish [] s = s
  run publish (w ∷ ws) s = run publish ws (wake publish s.phase w s)
