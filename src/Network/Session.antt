-- ===== src/Network/Session.antt =====
-- src/tasks/mqtt_manager.rs: the session with the broker. Each await of the task is a phase, and what
-- ends it is a wake-up with its result; the TCP socket and the MQTT client are not part of this
-- repository, and what the task asks of them is recorded. The other tasks offer messages at any time.
pub mod Status
pub mod Stream
pub mod Receive
mod Tests
use project_emerge_dropbot_f.Prelude.{
  ℕ, zero, suc, ◌≡◌, refl, Bool, true, false, Option, none, some, List, [], ◌∷◌, ◌++◌, length,
  if◌then◌else◌,
}
use project_emerge_dropbot_f.Prelude.Text.{Text}
use project_emerge_dropbot_f.Sync.{Watch, Channel}
use project_emerge_dropbot_f.Network.Heapless.{Heapless}
use project_emerge_dropbot_f.Network.Topics.{Topics, InboundTopic, resolve, subscriptions}
use project_emerge_dropbot_f.Network.Dispatch.{ReceivedMessage}

pub data BrokerStatus : Type 0 where
  disconnected connected : BrokerStatus

pub record PublishMessage : Type 0 where
  pub topic : Text
  pub payload : Text

-- The bytes that a message holds.
abbrev pub payload_capacity : ℕ
payload_capacity = 1024

pub data Phase : Type 0 where
  waiting_network connecting opening subscribing pausing serving : Phase

pub data Wake : Type 0 where
  network_ready : Wake
  -- The TCP connection, the session and the subscription succeed or fail; the pause of a second ends.
  tcp_connected session_opened subscribed : Bool → Wake
  pause_over : Wake
  -- A message with its topic and payload arrives, or the connection fails.
  received : Text → Text → Wake
  receive_failed : Wake
  -- A message is taken from the queue, and its publication succeeds or fails.
  published : Bool → Wake
  -- Another task offers a message to the queue.
  offered : PublishMessage → Wake

pub data Call : Type 0 where
  abort_socket connect_socket open_session : Call
  subscribe : List Text → Call
  publish : PublishMessage → Call

pub record MqttManager (W Q R : Type 0) : Type 0 where
  pub phase : Phase
  pub broker_status : W
  pub mqtt_publish : Q
  pub mqtt_receive : R
  -- The calls on the network, the latest first.
  pub calls : List Call

-- `while queue.try_receive().is_ok() {}`, on fuel.
unfoldable pub drain : {Q A : Type 0} → Channel Q A → ℕ → Q → Q
drain channel zero q = q
drain channel (suc fuel) q = elim (channel.try_receive q) [
  | none ↦ q
  | some (m, q') ↦ drain channel fuel q'
]

-- A refused message is dropped.
abbrev pub or_drop : {Q : Type 0} → Option Q → Q → Q
or_drop none q = q
or_drop (some q') q = q'

module _ {W Q R : Type 0} (watch : Watch W BrokerStatus) (outbox : Channel Q PublishMessage)
    (inbox : Channel R ReceivedMessage) (h : Heapless) (topics : Topics) where
  -- Before the first await.
  unfoldable pub start : W → Q → R → MqttManager W Q R
  start w q r = record {
    phase = waiting_network;
    broker_status = watch.send w disconnected;
    mqtt_publish = q;
    mqtt_receive = r;
    calls = [];
  }

  -- The head of the outer loop, up to its first await.
  unfoldable pub reconnect : MqttManager W Q R → MqttManager W Q R
  reconnect s = record s { phase = connecting; calls = connect_socket ∷ abort_socket ∷ s.calls }

  -- A break out of the inner loop.
  unfoldable pub lose : MqttManager W Q R → MqttManager W Q R
  unfolding reconnect
  lose s = reconnect (record s { broker_status = watch.send s.broker_status disconnected })

  -- The session is up; the fuel is what the queue holds, and one more.
  unfoldable pub serve : MqttManager W Q R → MqttManager W Q R
  unfolding drain
  serve s = record s {
    phase = serving;
    broker_status = watch.send s.broker_status connected;
    mqtt_publish = drain outbox (suc (length (outbox.held s.mqtt_publish))) s.mqtt_publish;
  }

  unfoldable pub buffered : InboundTopic → Option Text → R → R
  buffered topic none r = r
  buffered topic (some payload) r =
      or_drop (inbox.try_send r (record { topic = topic; payload = payload })) r

  unfoldable pub resolved : Option InboundTopic → Text → R → R
  unfolding buffered
  resolved none payload r = r
  resolved (some topic) payload r = buffered topic (h.push payload_capacity [] payload) r

  unfoldable pub receive : Text → Text → MqttManager W Q R → MqttManager W Q R
  unfolding resolved
  receive topic payload s = record s {
    mqtt_receive = resolved (resolve topics topic) payload s.mqtt_receive;
  }

  unfoldable pub publish_taken :
      Bool → Option (PublishMessage × Q) → MqttManager W Q R → MqttManager W Q R
  unfolding lose
  publish_taken success none s = s
  publish_taken success (some (m, q)) s =
      let sent = record s { mqtt_publish = q; calls = publish m ∷ s.calls } in
      if success then sent else lose sent

  unfoldable pub offer : PublishMessage → MqttManager W Q R → MqttManager W Q R
  offer m s = record s { mqtt_publish = or_drop (outbox.try_send s.mqtt_publish m) s.mqtt_publish }

  -- A wake-up in a phase that does not wait for it changes nothing.
  unfoldable pub wake : Phase → Wake → MqttManager W Q R → MqttManager W Q R
  unfolding reconnect lose serve receive publish_taken offer
  wake phase (offered m) s = offer m s
  wake waiting_network network_ready s = reconnect s
  wake connecting (tcp_connected false) s = record s { phase = pausing }
  wake connecting (tcp_connected true) s = record s {
    phase = opening;
    calls = open_session ∷ s.calls;
  }
  wake opening (session_opened false) s = record s { phase = pausing }
  wake opening (session_opened true) s = record s {
    phase = subscribing;
    calls = subscribe (subscriptions topics) ∷ s.calls;
  }
  wake subscribing (subscribed false) s = reconnect s
  wake subscribing (subscribed true) s = serve s
  wake pausing pause_over s = reconnect s
  wake serving (received topic payload) s = receive topic payload s
  wake serving receive_failed s = lose s
  wake serving (published success) s = publish_taken success (outbox.try_receive s.mqtt_publish) s
  wake _ _ s = s

  unfoldable pub step : Wake → MqttManager W Q R → MqttManager W Q R
  unfolding wake
  step w s = wake s.phase w s

  unfoldable pub run : List Wake → MqttManager W Q R → MqttManager W Q R
  unfolding step
  run [] s = s
  run (w ∷ ws) s = run ws (step w s)
