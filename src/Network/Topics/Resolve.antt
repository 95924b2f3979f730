-- ===== src/Network/Topics/Resolve.antt =====
-- A topic resolves to a subscription exactly when it is that subscription's own topic.
use mathlib.Core.List.{append-nil}
use project_emerge_dropbot_f.Prelude.{
  ◌+◌, ◌≡◌, ◌≢◌, ◌↔◌, refl, ap, ◌∙◌, none, some, [], ◌∷◌, ◌++◌, map, length, length-append, arith,
}
use project_emerge_dropbot_f.Prelude.Text.{Text, text_eq_iff, ne_of_text_eq, text_eq}
use project_emerge_dropbot_f.Network.Heapless.{Heapless, write_pieces-fits}
use project_emerge_dropbot_f.Network.Device.{device_id_len}
use project_emerge_dropbot_f.Network.Topics.{
  InboundTopic, motor_configuration, ota_config, Topics, build, init, subscriptions, resolve,
  telemetry_prefix, imu_stream_prefix, motor_command_prefix, ota_check_prefix, ota_config_topic,
  motor_config_topic,
}

-- The wire topic of each subscription.
abbrev pub topic_of : Topics → InboundTopic → Text
topic_of t InboundTopic.motor_command = t.motor_command
topic_of t InboundTopic.ota_check = t.ota_check
topic_of t ota_config = ota_config_topic
topic_of t motor_configuration = motor_config_topic

abbrev pub table : Text → Topics
table id = record {
  telemetry = telemetry_prefix ++ id;
  imu_stream = imu_stream_prefix ++ id;
  motor_command = motor_command_prefix ++ id;
  ota_check = ota_check_prefix ++ id;
}

build-append :
    (h : Heapless) (prefix id : Text) → length id ≡ device_id_len → build h prefix id ≡ prefix ++ id
unfolding build
build-append h prefix id e =
    ap (λ r. r.0)
      (write_pieces-fits h (length prefix + device_id_len) [] (prefix ∷ id ∷ [])
        (omega (arith, length-append prefix (id ++ []), length-append id [])))
    ∙ ap (◌++◌ prefix) (append-nil id)

-- With an ID of the length that `device_id` yields no topic is cut short: each is its whole prefix
-- and the whole ID.
pub init-table : (h : Heapless) (id : Text) → length id ≡ device_id_len → init h id ≡ table id
unfolding init
init-table h id e = ground (
  arith,
  build-append h telemetry_prefix id e,
  build-append h imu_stream_prefix id e,
  build-append h motor_command_prefix id e,
  build-append h ota_check_prefix id e,
)

resolve_of_distinct :
    (t : Topics) (topic : Text) (k : InboundTopic)
    → t.motor_command ≢ t.ota_check
    → t.motor_command ≢ ota_config_topic
    → t.motor_command ≢ motor_config_topic
    → t.ota_check ≢ ota_config_topic
    → t.ota_check ≢ motor_config_topic
    → (resolve t topic ≡ some k) ↔ (topic ≡ topic_of t k)
unfolding resolve
resolve_of_distinct t topic k a b c d e = ground (
  arith,
  text_eq_iff topic t.motor_command,
  text_eq_iff topic t.ota_check,
  text_eq_iff topic ota_config_topic,
  text_eq_iff topic motor_config_topic,
)

-- A topic off the wire resolves to a subscription exactly when it is the topic of that
-- subscription, for every board: no two of the four topics are alike.
pub resolve_iff :
    (h : Heapless) (id topic : Text) (k : InboundTopic)
    → length id ≡ device_id_len
    → (resolve (init h id) topic ≡ some k) ↔ (topic ≡ topic_of (init h id) k)
unfolding text_eq
resolve_iff h id topic k e = rw (init-table h id e) (
    resolve_of_distinct (table id) topic k (ne_of_text_eq _ _ refl) (ne_of_text_eq _ _ refl)
      (ne_of_text_eq _ _ refl) (ne_of_text_eq _ _ refl) (ne_of_text_eq _ _ refl))

-- What the board subscribes to is what it can recognise: the four subscriptions resolve, in order,
-- to the motor commands, the update checks, the update server and the motor configuration.
pub resolve-subscriptions :
    (h : Heapless) (id : Text)
    → length id ≡ device_id_len
    → map (resolve (init h id)) (subscriptions (init h id))
      ≡ some InboundTopic.motor_command
        ∷ some InboundTopic.ota_check
        ∷ some ota_config
        ∷ some motor_configuration
        ∷ []
unfolding subscriptions
resolve-subscriptions h id e = ground (
  arith,
  (resolve_iff h id _ InboundTopic.motor_command e).1 refl,
  (resolve_iff h id _ InboundTopic.ota_check e).1 refl,
  (resolve_iff h id _ ota_config e).1 refl,
  (resolve_iff h id _ motor_configuration e).1 refl,
)

resolve_unknown :
    (h : Heapless) (id topic : Text)
    → length id ≡ device_id_len
    → topic ≢ (table id).motor_command
    → topic ≢ (table id).ota_check
    → topic ≢ ota_config_topic
    → topic ≢ motor_config_topic
    → resolve (init h id) topic ≡ none
unfolding resolve
resolve_unknown h id topic e a b c d = rw (init-table h id e) (
    ground (
      arith,
      text_eq_iff topic (table id).motor_command,
      text_eq_iff topic (table id).ota_check,
      text_eq_iff topic ota_config_topic,
      text_eq_iff topic motor_config_topic,
    ))

-- Two boards with different IDs do not answer to one another's command topics.
pub resolve_other_board :
    (h : Heapless) (id other : Text)
    → length id ≡ device_id_len
    → length other ≡ device_id_len
    → id ≢ other
    → (resolve (init h id) (init h other).motor_command ≡ none)
      × (resolve (init h id) (init h other).ota_check ≡ none)
unfolding text_eq
resolve_other_board h id other e f d = rw (init-table h other f) (
  resolve_unknown h id (table other).motor_command e (λ p. d (cc)) (ne_of_text_eq _ _ refl)
      (ne_of_text_eq _ _ refl) (ne_of_text_eq _ _ refl),
  resolve_unknown h id (table other).ota_check e (ne_of_text_eq _ _ refl) (λ p. d (cc))
      (ne_of_text_eq _ _ refl) (ne_of_text_eq _ _ refl),
)
