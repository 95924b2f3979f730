-- ===== src/Network/Dispatch/Delivery.antt =====
-- What the dispatch delivers over any sequence of messages, as a function of the messages alone.
use mathlib.Core.List.{append-nil, append_assoc}
use project_emerge_dropbot_f.Prelude.{
  ◌≡◌, refl, sym, ap, ◌∙◌, Bool, true, false, ◌||◌, Option, none, some, List, [], ◌∷◌, ◌++◌,
  if◌then◌else◌, arith, Bool-cases, inl, inr,
}
use project_emerge_dropbot_f.Prelude.Text.{Text}
use project_emerge_dropbot_f.Sync.{Watch}
use project_emerge_dropbot_f.Network.Topics.{
  InboundTopic, motor_command, motor_configuration, ota_check, ota_config,
}
use project_emerge_dropbot_f.Network.Configuration.{OtaConfiguration, is_valid}
use project_emerge_dropbot_f.Network.Dispatch.{
  ReceivedMessage, Parsers, MqttClient, push_parsed, configure_ota, on_text, on_payload, dispatch,
  run,
}

abbrev pub option_list : {A : Type 0} → Option A → List A
option_list none = []
option_list (some a) = a ∷ []

abbrev pub filter_map : {A B : Type 0} → (A → Option B) → List A → List B
filter_map f [] = []
filter_map f (a ∷ xs) = option_list (f a) ++ filter_map f xs

-- The texts that arrive on a topic.
abbrev is_topic : InboundTopic → InboundTopic → Bool
is_topic motor_command motor_command = true
is_topic motor_configuration motor_configuration = true
is_topic ota_check ota_check = true
is_topic ota_config ota_config = true
is_topic _ _ = false

abbrev text_on : InboundTopic → InboundTopic → Option Text → Option Text
text_on t topic none = none
text_on t topic (some payload) = if is_topic t topic then some payload else none

abbrev pub texts : (Text → Option Text) → InboundTopic → List ReceivedMessage → List Text
texts from_utf8 t ms = filter_map (λ m. text_on t m.topic (from_utf8 m.payload)) ms

-- The last valid configuration, or the one from before.
abbrev pub last_valid : Option OtaConfiguration → List OtaConfiguration → Option OtaConfiguration
last_valid o [] = o
last_valid o (c ∷ cs) = last_valid (if is_valid c then some c else o) cs

abbrev pub is_any : {A : Type 0} → List A → Bool
is_any [] = false
is_any (a ∷ xs) = true

none-some : {A : Type 0} (a : A) → ¬ (none ≡ some a)
none-some a e = cc e

push_parsed-append :
    {A : Type 0} (o : Option A) (xs : List A) → push_parsed o xs ≡ xs ++ option_list o
push_parsed-append none xs = sym (append-nil xs)
push_parsed-append (some a) xs = refl

filter_map-append :
    {A B : Type 0} (f : A → Option B) (xs bs : List A)
    → filter_map f (xs ++ bs) ≡ filter_map f xs ++ filter_map f bs
filter_map-append f [] bs = refl
filter_map-append f (a ∷ xs) bs = rw (filter_map-append f xs bs, append_assoc)

last_valid-append :
    (xs : List OtaConfiguration) (o : Option OtaConfiguration) (bs : List OtaConfiguration)
    → last_valid o (xs ++ bs) ≡ last_valid (last_valid o xs) bs
last_valid-append [] o bs = refl
last_valid-append (c ∷ cs) o bs = last_valid-append cs _ bs

if_valid :
    (c : OtaConfiguration) (o : Option OtaConfiguration)
    → ((d : OtaConfiguration) → o ≡ some d → is_valid d ≡ true)
    → (d : OtaConfiguration) → (if is_valid c then some c else o) ≡ some d
    → is_valid d ≡ true
if_valid c o h d e = grind (arith, h)

last_valid-valid :
    (cs : List OtaConfiguration) (o : Option OtaConfiguration)
    → ((d : OtaConfiguration) → o ≡ some d → is_valid d ≡ true)
    → (d : OtaConfiguration) → last_valid o cs ≡ some d
    → is_valid d ≡ true
last_valid-valid [] o h d e = h d e
last_valid-valid (c ∷ cs) o h d e =
    last_valid-valid cs (if is_valid c then some c else o) (λ d e. if_valid c o h d e) d e

is_any-append : {A : Type 0} (xs bs : List A) → is_any (xs ++ bs) ≡ is_any xs || is_any bs
is_any-append [] bs = refl
is_any-append (x ∷ xs) bs = refl

or_false : (b : Bool) → b || false ≡ b
or_false true = refl
or_false false = refl

or_true : (b : Bool) → b || true ≡ true
or_true true = refl
or_true false = refl

or_assoc : (a b c : Bool) → (a || b) || c ≡ a || (b || c)
or_assoc true b c = refl
or_assoc false b c = refl

module _ {W R : Type 0} (watch : Watch W OtaConfiguration) (parsers : Parsers R) where
  pub record IsDelivered (before after : MqttClient W R) (ms : List ReceivedMessage) : Type 0 where
    pub commands :
        after.motor_commands
        ≡ before.motor_commands
          ++ filter_map parsers.drive_command (texts parsers.from_utf8 motor_command ms)
    pub configurations :
        after.motor_configurations
        ≡ before.motor_configurations
          ++ filter_map parsers.motors_configuration
              (texts parsers.from_utf8 motor_configuration ms)
    pub checks :
        after.ota_check_request
        ≡ before.ota_check_request || is_any (texts parsers.from_utf8 ota_check ms)
    pub server :
        watch.try_get after.ota_configuration
        ≡ last_valid
            (watch.try_get before.ota_configuration)
            (filter_map parsers.ota_configuration (texts parsers.from_utf8 ota_config ms))

  -- One message
  on_payload-commands :
      (topic : InboundTopic) (o : Option Text) (s : MqttClient W R)
      → (on_payload watch parsers topic o s).motor_commands
        ≡ s.motor_commands
          ++ filter_map parsers.drive_command (option_list (text_on motor_command topic o))
  unfolding on_payload on_text
  on_payload-commands topic none s = sym (append-nil _)
  on_payload-commands motor_command (some p) s =
      push_parsed-append (parsers.drive_command p) s.motor_commands
      ∙ ap (λ l. s.motor_commands ++ l) (sym (append-nil _))
  on_payload-commands motor_configuration (some p) s = sym (append-nil _)
  on_payload-commands ota_check (some p) s = sym (append-nil _)
  on_payload-commands ota_config (some p) s = sym (append-nil _)

  on_payload-configurations :
      (topic : InboundTopic) (o : Option Text) (s : MqttClient W R)
      → (on_payload watch parsers topic o s).motor_configurations
        ≡ s.motor_configurations
          ++ filter_map parsers.motors_configuration
              (option_list (text_on motor_configuration topic o))
  unfolding on_payload on_text
  on_payload-configurations topic none s = sym (append-nil _)
  on_payload-configurations motor_configuration (some p) s =
      push_parsed-append (parsers.motors_configuration p) s.motor_configurations
      ∙ ap (λ l. s.motor_configurations ++ l) (sym (append-nil _))
  on_payload-configurations motor_command (some p) s = sym (append-nil _)
  on_payload-configurations ota_check (some p) s = sym (append-nil _)
  on_payload-configurations ota_config (some p) s = sym (append-nil _)

  on_payload-checks :
      (topic : InboundTopic) (o : Option Text) (s : MqttClient W R)
      → (on_payload watch parsers topic o s).ota_check_request
        ≡ s.ota_check_request || is_any (option_list (text_on ota_check topic o))
  unfolding on_payload on_text
  on_payload-checks topic none s = sym (or_false _)
  on_payload-checks ota_check (some p) s = sym (or_true _)
  on_payload-checks motor_command (some p) s = sym (or_false _)
  on_payload-checks motor_configuration (some p) s = sym (or_false _)
  on_payload-checks ota_config (some p) s = sym (or_false _)

  configure_ota-server :
      (o : Option OtaConfiguration) (w : W)
      → watch.try_get (configure_ota watch o w) ≡ last_valid (watch.try_get w) (option_list o)
  unfolding configure_ota
  configure_ota-server none w = refl
  configure_ota-server (some c) w = elim (Bool-cases (is_valid c)) [
    | inl e ↦ rw (e, watch.try_get-send)
    | inr e ↦ rw e
  ]

  on_payload-server :
      (topic : InboundTopic) (o : Option Text) (s : MqttClient W R)
      → watch.try_get (on_payload watch parsers topic o s).ota_configuration
        ≡ last_valid
            (watch.try_get s.ota_configuration)
            (filter_map parsers.ota_configuration (option_list (text_on ota_config topic o)))
  unfolding on_payload on_text
  on_payload-server topic none s = refl
  on_payload-server ota_config (some p) s =
      configure_ota-server (parsers.ota_configuration p) s.ota_configuration
      ∙ ap (last_valid (watch.try_get s.ota_configuration))
          (sym (append-nil (option_list (parsers.ota_configuration p))))
  on_payload-server motor_command (some p) s = refl
  on_payload-server motor_configuration (some p) s = refl
  on_payload-server ota_check (some p) s = refl

  -- Over any sequence of messages the motor task is sent exactly the commands and configurations that
  -- parse, of the messages on their topics that are UTF-8, in their order; a check is requested exactly
  -- where one was before or a message on its topic is UTF-8; and the update task sees the last
  -- configuration on its topic that parses and is valid, or the one from before. Nothing else that
  -- arrives changes anything.
  pub run-IsDelivered :
      (ms : List ReceivedMessage) (s : MqttClient W R) → IsDelivered s (run watch parsers ms s) ms
  unfolding run dispatch
  run-IsDelivered [] s = record {
    commands = sym (append-nil _);
    configurations = sym (append-nil _);
    checks = sym (or_false _);
    server = refl;
  }
  run-IsDelivered (m ∷ ms) s =
      let o = parsers.from_utf8 m.payload in
      let s' = on_payload watch parsers m.topic o s in
      let rest = run-IsDelivered ms s' in
      record {
        commands =
            rw (rest.commands, on_payload-commands m.topic o s, filter_map-append, append_assoc);
        configurations = rw (
          rest.configurations,
          on_payload-configurations m.topic o s,
          filter_map-append,
          append_assoc,
        );
        checks = rw (rest.checks, on_payload-checks m.topic o s, is_any-append, or_assoc);
        server =
            rw (rest.server, on_payload-server m.topic o s, filter_map-append, last_valid-append);
      }

  -- Where the update task had no configuration, any that it sees after a sequence of messages is valid.
  pub run-is_valid :
      (ms : List ReceivedMessage) (s : MqttClient W R) (c : OtaConfiguration)
      → watch.try_get s.ota_configuration ≡ none
      → watch.try_get (run watch parsers ms s).ota_configuration ≡ some c
      → is_valid c ≡ true
  run-is_valid ms s c before after =
      last_valid-valid
        (filter_map parsers.ota_configuration (texts parsers.from_utf8 ota_config ms))
        (watch.try_get s.ota_configuration) (λ d e. absurd (none-some d (sym before ∙ e))) c
        (sym (run-IsDelivered ms s).server ∙ after)
