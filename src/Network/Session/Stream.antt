-- ===== src/Network/Session/Stream.antt =====
-- What the session publishes: what was accepted since it was subscribed, in order.
use mathlib.Core.Path.{subst}
use mathlib.Core.List.{append-nil, append_assoc}
use project_emerge_dropbot_f.Prelude.{
  ℕ, zero, suc, ◌<◌, ◌≡◌, refl, sym, ap, ◌∙◌, inl, inr, Bool, true, false, Option, none, some, List,
  [], ◌∷◌, ◌++◌, length, arith, ◌&&◌,
}
use project_emerge_dropbot_f.Sync.{Watch, Channel, try_receive-cases, try_send-cases}
use project_emerge_dropbot_f.Network.Heapless.{Heapless}
use project_emerge_dropbot_f.Network.Topics.{Topics}
use project_emerge_dropbot_f.Network.Dispatch.{ReceivedMessage}
use project_emerge_dropbot_f.Network.Session.{
  BrokerStatus, PublishMessage, opening, serving, Wake, network_ready, tcp_connected,
  session_opened, subscribed, pause_over, received, receive_failed, published, offered, Call,
  subscribe, publish, MqttManager, drain, serve, receive, publish_taken, offer, wake, step, run,
}

both_true : {a b : Bool} → a && b ≡ true → (a ≡ true) × (b ≡ true)
both_true {a = true} {b = b} h = (refl, h)
both_true {a = false} {b = b} h = cc

shorter :
    {A : Type 0} {xs rest : List A} {a : A} {fuel : ℕ}
    → xs ≡ a ∷ rest
    → length xs < suc fuel
    → length rest < fuel
shorter e h = omega (arith, ap length e)

-- The loop that drops what a queue holds ends with an empty queue, given more fuel than the queue
-- holds messages.
pub drain-empties :
    {Q A : Type 0} (channel : Channel Q A) (fuel : ℕ) (q : Q)
    → length (channel.held q) < fuel
    → channel.held (drain channel fuel q) ≡ []
unfolding drain
drain-empties channel zero q h = absurd (omega arith)
drain-empties channel (suc fuel) q h = elim (try_receive-cases channel q) [
  | inl (e, nothing) ↦ rw (drain, nothing, e)
  | inr (a, q', got, e) ↦ rw (drain, got) (drain-empties channel fuel q' (shorter e h))
]

-- The messages published since the subscription, the earliest first.
abbrev pub published_since : List Call → List PublishMessage
published_since [] = []
published_since (subscribe filters ∷ cs) = []
published_since (publish m ∷ cs) = published_since cs ++ m ∷ []
published_since (_ ∷ cs) = published_since cs

-- The wake-ups that leave the session up.
abbrev pub is_quiet : Wake → Bool
is_quiet (offered m) = true
is_quiet (received topic payload) = true
is_quiet (published success) = success
is_quiet _ = false

module _ {W Q R : Type 0} (watch : Watch W BrokerStatus) (outbox : Channel Q PublishMessage)
    (inbox : Channel R ReceivedMessage) (h : Heapless) (topics : Topics) where
  -- What is published of this session, and what waits behind it.
  abbrev pub stream : MqttManager W Q R → List PublishMessage
  stream s = published_since s.calls ++ outbox.held s.mqtt_publish

  -- The messages of the offers for which the queue has room when they are made.
  abbrev accepted_if : Option Q → PublishMessage → List PublishMessage
  accepted_if none m = []
  accepted_if (some q) m = m ∷ []

  abbrev accepted_of : Wake → MqttManager W Q R → List PublishMessage
  accepted_of (offered m) s = accepted_if (outbox.try_send s.mqtt_publish m) m
  accepted_of _ s = []

  abbrev pub accepted : List Wake → MqttManager W Q R → List PublishMessage
  accepted [] s = []
  accepted (w ∷ ws) s = accepted_of w s ++ accepted ws (step watch outbox inbox h topics w s)

  abbrev pub all_quiet : List Wake → Bool
  all_quiet [] = true
  all_quiet (w ∷ ws) = is_quiet w && all_quiet ws

  offer-stream :
      (m : PublishMessage) (s : MqttManager W Q R)
      → stream (offer watch outbox inbox h topics m s) ≡ stream s ++ accepted_of (offered m) s
  unfolding offer
  offer-stream m s = elim (try_send-cases outbox s.mqtt_publish m) [
    | inl (q', e, held) ↦ rw (e, held, append_assoc)
    | inr (e, full) ↦ rw (e, append-nil)
  ]

  publish_taken-stream :
      (s : MqttManager W Q R)
      → stream
          (publish_taken watch outbox inbox h topics true (outbox.try_receive s.mqtt_publish) s)
        ≡ stream s
  unfolding publish_taken
  publish_taken-stream s = elim (try_receive-cases outbox s.mqtt_publish) [
    | inl (e, nothing) ↦ rw nothing
    | inr (m, q', got, e) ↦ rw (got, e, append_assoc)
  ]

  -- A quiet wake-up of a session that is up.
  abbrev Kept : Wake → MqttManager W Q R → MqttManager W Q R → Type 0
  Kept w s t = (t.phase ≡ s.phase) × (stream t ≡ stream s ++ accepted_of w s)

  publish_taken-phase :
      (o : Option (PublishMessage × Q)) (s : MqttManager W Q R)
      → (publish_taken watch outbox inbox h topics true o s).phase ≡ s.phase
  unfolding publish_taken
  publish_taken-phase none s = refl
  publish_taken-phase (some (m, q)) s = refl

  wake-Kept :
      (w : Wake) (s : MqttManager W Q R)
      → is_quiet w ≡ true
      → Kept w s (wake watch outbox inbox h topics serving w s)
  unfolding wake receive offer
  wake-Kept (offered m) s quiet = (refl, offer-stream m s)
  wake-Kept (received topic payload) s quiet = (refl, sym (append-nil _))
  wake-Kept (published true) s quiet = (
    publish_taken-phase (outbox.try_receive s.mqtt_publish) s,
    publish_taken-stream s ∙ sym (append-nil _),
  )
  wake-Kept (published false) s quiet = cc
  wake-Kept network_ready s quiet = cc
  wake-Kept (tcp_connected b) s quiet = cc
  wake-Kept (session_opened b) s quiet = cc
  wake-Kept (subscribed b) s quiet = cc
  wake-Kept pause_over s quiet = cc
  wake-Kept receive_failed s quiet = cc

  step-Kept :
      (w : Wake) (s : MqttManager W Q R)
      → s.phase ≡ serving
      → is_quiet w ≡ true
      → Kept w s (step watch outbox inbox h topics w s)
  unfolding step
  step-Kept w s e quiet =
      subst (λ p. Kept w s (wake watch outbox inbox h topics p w s)) (sym e) (wake-Kept w s quiet)

  run-quiet :
      (ws : List Wake) (s : MqttManager W Q R)
      → s.phase ≡ serving
      → all_quiet ws ≡ true
      → ((run watch outbox inbox h topics ws s).phase ≡ serving)
        × (stream (run watch outbox inbox h topics ws s) ≡ stream s ++ accepted ws s)
  unfolding run
  run-quiet [] s e quiet = (e, sym (append-nil _))
  run-quiet (w ∷ ws) s e quiet =
      let s' = step watch outbox inbox h topics w s in
      let (phase, kept) = step-Kept w s e (both_true quiet).0 in
      let (last, rest) = run-quiet ws s' (phase ∙ e) (both_true quiet).1 in
      (
        last,
        rest
            ∙ ap (λ xs. xs ++ accepted ws s') kept
            ∙ append_assoc (stream s) (accepted_of w s) (accepted ws s'),
      )

  abbrev pub up : MqttManager W Q R → MqttManager W Q R
  up s = run watch outbox inbox h topics (session_opened true ∷ subscribed true ∷ []) s

  up-fresh :
      (s : MqttManager W Q R) → s.phase ≡ opening → ((up s).phase ≡ serving) × (stream (up s) ≡ [])
  unfolding run step wake serve
  up-fresh s e =
      subst
        (λ p.
          let t =
            step watch outbox inbox h topics (subscribed true)
              (wake watch outbox inbox h topics p (session_opened true) s) in
          (t.phase ≡ serving) × (stream t ≡ []))
        (sym e)
        (
          refl,
          drain-empties outbox (suc (length (outbox.held s.mqtt_publish))) s.mqtt_publish
              (omega arith),
        )

  -- A session that opens and is subscribed starts with an empty queue: nothing from before it is ever
  -- published. Then, over any wake-ups that do not end it, it goes on, and what it has published,
  -- followed by what waits in the queue, is exactly what the queue accepted since, in that order.
  pub run-stream :
      (s : MqttManager W Q R) (ws : List Wake)
      → s.phase ≡ opening
      → all_quiet ws ≡ true
      → ((run watch outbox inbox h topics ws (up s)).phase ≡ serving)
        × (stream (run watch outbox inbox h topics ws (up s)) ≡ accepted ws (up s))
  run-stream s ws e quiet =
      let (serves, empty) = up-fresh s e in
      let (last, rest) = run-quiet ws (up s) serves quiet in
      (last, rest ∙ ap (λ xs. xs ++ accepted ws (up s)) empty)
