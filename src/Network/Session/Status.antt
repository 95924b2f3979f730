-- ===== src/Network/Session/Status.antt =====
-- What the display is told of the session.
use project_emerge_dropbot_f.Prelude.{
  ◌≡◌, refl, ap, ◌∙◌, Bool, true, false, Option, none, some, List, [], ◌∷◌,
}
use project_emerge_dropbot_f.Sync.{Watch, Channel}
use project_emerge_dropbot_f.Network.Heapless.{Heapless}
use project_emerge_dropbot_f.Network.Topics.{Topics}
use project_emerge_dropbot_f.Network.Dispatch.{ReceivedMessage}
use project_emerge_dropbot_f.Network.Session.{
  BrokerStatus, disconnected, connected, PublishMessage, Phase, waiting_network, connecting,
  opening, subscribing, pausing, serving, Wake, network_ready, tcp_connected, session_opened,
  subscribed, pause_over, received, receive_failed, published, offered, MqttManager, start,
  reconnect, lose, serve, receive, publish_taken, offer, wake, step, run,
}

abbrev pub status_of : Phase → BrokerStatus
status_of serving = connected
status_of _ = disconnected

module _ {W Q R : Type 0} (watch : Watch W BrokerStatus) (outbox : Channel Q PublishMessage)
    (inbox : Channel R ReceivedMessage) (h : Heapless) (topics : Topics) where
  abbrev pub Told : MqttManager W Q R → Type 0
  Told s = watch.try_get s.broker_status ≡ some (status_of s.phase)

  publish_taken-Told :
      (b : Bool) (o : Option (PublishMessage × Q)) (s : MqttManager W Q R)
      → s.phase ≡ serving
      → Told s
      → Told (publish_taken watch outbox inbox h topics b o s)
  unfolding publish_taken lose reconnect
  publish_taken-Told b none s p t = t
  publish_taken-Told true (some (m, q)) s p t = t
  publish_taken-Told false (some (m, q)) s p t = watch.try_get-send s.broker_status disconnected

  wake-Told :
      (p : Phase) (w : Wake) (s : MqttManager W Q R)
      → s.phase ≡ p
      → Told s
      → Told (wake watch outbox inbox h topics p w s)
  unfolding wake reconnect lose serve receive offer
  wake-Told phase (offered m) s e t = t
  wake-Told waiting_network network_ready s e t = t ∙ ap (λ p. some (status_of p)) e
  wake-Told connecting (tcp_connected false) s e t = t ∙ ap (λ p. some (status_of p)) e
  wake-Told connecting (tcp_connected true) s e t = t ∙ ap (λ p. some (status_of p)) e
  wake-Told opening (session_opened false) s e t = t ∙ ap (λ p. some (status_of p)) e
  wake-Told opening (session_opened true) s e t = t ∙ ap (λ p. some (status_of p)) e
  wake-Told subscribing (subscribed false) s e t = t ∙ ap (λ p. some (status_of p)) e
  wake-Told subscribing (subscribed true) s e t = watch.try_get-send s.broker_status connected
  wake-Told pausing pause_over s e t = t ∙ ap (λ p. some (status_of p)) e
  wake-Told serving (received topic payload) s e t = t
  wake-Told serving receive_failed s e t = watch.try_get-send s.broker_status disconnected
  wake-Told serving (published success) s e t =
      publish_taken-Told success (outbox.try_receive s.mqtt_publish) s e t
  wake-Told _ _ s e t = t

  run-Told :
      (ws : List Wake) (s : MqttManager W Q R)
      → Told s
      → Told (run watch outbox inbox h topics ws s)
  unfolding run step
  run-Told [] s t = t
  run-Told (w ∷ ws) s t =
      run-Told ws (step watch outbox inbox h topics w s) (wake-Told s.phase w s refl t)

  -- Over any sequence of wake-ups and offers from the start, the watch says connected exactly while the
  -- session is served, and disconnected in every other phase.
  pub run-start-Told :
      (ws : List Wake) (w : W) (q : Q) (r : R)
      → Told (run watch outbox inbox h topics ws (start watch outbox inbox h topics w q r))
  unfolding start
  run-start-Told ws w q r =
      run-Told ws (start watch outbox inbox h topics w q r) (watch.try_get-send w disconnected)
