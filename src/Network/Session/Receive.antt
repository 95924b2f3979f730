-- ===== src/Network/Session/Receive.antt =====
-- What becomes of a message that the broker delivers.
use mathlib.Core.Path.{subst}
use project_emerge_dropbot_f.Prelude.{
  ◌<◌, ◌≤◌, ◌≡◌, refl, sym, ◌⊎◌, inl, inr, Option, none, some, [], ◌∷◌, ◌++◌, length, le_or_lt,
  arith,
}
use project_emerge_dropbot_f.Prelude.Text.{Text}
use project_emerge_dropbot_f.Sync.{Watch, Channel}
use project_emerge_dropbot_f.Network.Heapless.{Heapless}
use project_emerge_dropbot_f.Network.Topics.{Topics, InboundTopic, resolve}
use project_emerge_dropbot_f.Network.Dispatch.{ReceivedMessage}
use project_emerge_dropbot_f.Network.Session.{
  BrokerStatus, PublishMessage, MqttManager, payload_capacity, buffered, resolved, receive, serving,
  received, wake, step,
}

module _ {W Q R : Type 0} (watch : Watch W BrokerStatus) (outbox : Channel Q PublishMessage)
    (inbox : Channel R ReceivedMessage) (h : Heapless) (topics : Topics) where
  abbrev pub Delivered : Text → Text → R → R → Type 0
  Delivered topic payload r r' =
      (t : InboundTopic) × (resolve topics topic ≡ some t)
      × (length payload ≤ payload_capacity)
      × (length (inbox.held r) < inbox.capacity)
      × (inbox.held r' ≡ inbox.held r ++ record { topic = t; payload = payload } ∷ [])

  abbrev pub Dropped : Text → Text → R → R → Type 0
  Dropped topic payload r r' =
      (r' ≡ r)
      × ((resolve topics topic ≡ none)
          ⊎ (payload_capacity < length payload)
          ⊎ (inbox.capacity ≤ length (inbox.held r)))

  resolved-outcomes :
      (topic payload : Text) (r : R) (o : Option InboundTopic)
      → resolve topics topic ≡ o
      → Delivered topic payload r (resolved watch outbox inbox h topics o payload r)
        ⊎ Dropped topic payload r (resolved watch outbox inbox h topics o payload r)
  unfolding resolved buffered
  resolved-outcomes topic payload r none e = inr (refl, inl e)
  resolved-outcomes topic payload r (some t) e = elim (le_or_lt (length payload) payload_capacity) [
    | inr large ↦
        rw (h.push_full payload_capacity [] payload (omega arith)) (inr (refl, inr (inl large)))
    | inl fits ↦
        rw (h.push_fits payload_capacity [] payload (omega arith))
          (elim (le_or_lt inbox.capacity (length (inbox.held r))) [
            | inl full ↦
                rw (inbox.send_full r (record { topic = t; payload = payload }) full)
                  (inr (refl, inr (inr full)))
            | inr room ↦
                let (r', sent, held) =
                  inbox.send_room r (record { topic = t; payload = payload }) room in
                rw sent (inl (t, e, fits, room, held))
          ])
  ]

  -- While the session is served, a message that arrives is queued for the dispatch, with the meaning of
  -- its topic and behind those that wait, where its topic is a subscribed one, it has at most 1024
  -- bytes and the queue has room. Else it is dropped, for one of these reasons, and the queue is as it
  -- was. Either way the session goes on, with nothing else changed.
  pub receive-outcomes :
      (topic payload : Text) (s : MqttManager W Q R)
      → s.phase ≡ serving
      → let t = step watch outbox inbox h topics (received topic payload) s in
        (Delivered topic payload s.mqtt_receive t.mqtt_receive
          ⊎ Dropped topic payload s.mqtt_receive t.mqtt_receive)
        × (t ≡ record s { mqtt_receive = t.mqtt_receive })
  unfolding step wake receive
  receive-outcomes topic payload s e =
      subst
        (λ p.
          let t = wake watch outbox inbox h topics p (received topic payload) s in
          (Delivered topic payload s.mqtt_receive t.mqtt_receive
            ⊎ Dropped topic payload s.mqtt_receive t.mqtt_receive)
          × (t ≡ record s { mqtt_receive = t.mqtt_receive }))
        (sym e) (resolved-outcomes topic payload s.mqtt_receive (resolve topics topic) refl, refl)
