-- ===== src/Network/Publisher/Outcomes.antt =====
-- What becomes of a sample, and that none is queued before the broker was connected.
use mathlib.Core.Path.{subst}
use project_emerge_dropbot_f.Prelude.{
  ◌+◌, ◌<◌, ◌≤◌, ◌≡◌, refl, sym, ap, ◌∙◌, ◌⊎◌, inl, inr, Bool, true, false, Option, none, some,
  List, [], ◌∷◌, ◌++◌, length, le_or_lt, arith,
}
use project_emerge_dropbot_f.Prelude.Text.{Text}
use project_emerge_dropbot_f.Prelude.Words.{u32}
use project_emerge_dropbot_f.Sync.{Channel}
use project_emerge_dropbot_f.Network.Heapless.{Heapless}
use project_emerge_dropbot_f.Network.Session.{
  connected, disconnected, PublishMessage, payload_capacity,
}
use project_emerge_dropbot_f.Network.Publisher.{
  waiting_broker, publishing, Wake, seen, sampled, taken, Publisher, message_of, message_of_json,
  message_of_buffer, publish_imu_stream, or_count, take_one, wake, run,
}

module _ {Q T : Type 0} (outbox : Channel Q PublishMessage) (h : Heapless) (topic : Text)
    (serialize : T → Option Text) where
  -- A message behind those that wait; a full queue; or no message.
  abbrev pub Queued : Text → Publisher Q → Publisher Q → Type 0
  Queued buffer s t =
      (length buffer ≤ payload_capacity)
      × (length (outbox.held s.mqtt_publish) < outbox.capacity)
      × (outbox.held t.mqtt_publish
          ≡ outbox.held s.mqtt_publish ++ record { topic = topic; payload = buffer } ∷ [])
      × (t.dropped ≡ s.dropped)

  abbrev pub Full : Text → Publisher Q → Publisher Q → Type 0
  Full buffer s t =
      (length buffer ≤ payload_capacity)
      × (outbox.capacity ≤ length (outbox.held s.mqtt_publish))
      × (t ≡ record s { dropped = u32 (s.dropped + 1) })

  abbrev pub IsSettled : Option Text → Publisher Q → Publisher Q → Type 0
  IsSettled none s t = t ≡ s
  IsSettled (some buffer) s t =
      Queued buffer s t ⊎ Full buffer s t ⊎ ((payload_capacity < length buffer) × (t ≡ s))

  json-outcomes :
      (o : Option Text) (s : Publisher Q)
      → IsSettled o s (
          publish_imu_stream outbox h topic serialize
            (message_of_json outbox h topic serialize o)
            s)
  unfolding publish_imu_stream message_of_json message_of_buffer or_count
  json-outcomes none s = refl
  json-outcomes (some buffer) s = elim (le_or_lt (length buffer) payload_capacity) [
    | inr large ↦
        rw (h.push_full payload_capacity [] buffer (omega arith)) (inr (inr (large, refl)))
    | inl fits ↦
        rw (h.push_fits payload_capacity [] buffer (omega arith))
          (elim (le_or_lt outbox.capacity (length (outbox.held s.mqtt_publish))) [
            | inl full ↦
                rw
                  (outbox.send_full s.mqtt_publish (record { topic = topic; payload = buffer })
                    full)
                  (inr (inl (fits, full, refl)))
            | inr room ↦
                let (q, sent, held) =
                  outbox.send_room s.mqtt_publish (record { topic = topic; payload = buffer })
                    room in
                rw sent (inl (fits, room, held, refl))
          ])
  ]

  -- While the stream is published, a sample that is serialized to at most 1024 bytes is queued behind
  -- the messages that wait where the queue has room, and else counted as dropped, modulo 2 ^ 32, with
  -- the queue as it was; a sample that is not serialized or is larger changes nothing.
  pub sample-outcomes :
      (sample : T) (s : Publisher Q)
      → s.phase ≡ publishing
      → IsSettled (serialize sample) s (
          run outbox h topic serialize
            (publish_imu_stream outbox h topic serialize)
            (sampled sample ∷ [])
            s)
  unfolding run wake message_of
  sample-outcomes sample s e =
      subst
        (λ p. IsSettled (serialize sample) s (
          wake outbox h topic serialize (publish_imu_stream outbox h topic serialize) p
            (sampled sample) s))
        (sym e) (json-outcomes (serialize sample) s)

  abbrev pub is_offline : List (Wake T) → Bool
  is_offline [] = true
  is_offline (seen connected ∷ ws) = false
  is_offline (_ ∷ ws) = is_offline ws

  wake-offline :
      (publish : Option PublishMessage → Publisher Q → Publisher Q) (w : Wake T)
      (ws : List (Wake T)) (s : Publisher Q)
      → is_offline (w ∷ ws) ≡ true
      → outbox.held s.mqtt_publish ≡ []
      → (wake outbox h topic serialize publish waiting_broker w s ≡ s) × (is_offline ws ≡ true)
  unfolding wake take_one
  wake-offline publish (seen connected) ws s off empty = cc
  wake-offline publish (seen disconnected) ws s off empty = (refl, off)
  wake-offline publish (sampled sample) ws s off empty = (refl, off)
  wake-offline publish taken ws s off empty = (rw (outbox.receive_none s.mqtt_publish empty), off)

  -- Until the broker was connected once, whatever samples come and however often the session looks,
  -- either task leaves an empty queue empty, counts nothing and goes on waiting.
  pub run-offline :
      (publish : Option PublishMessage → Publisher Q → Publisher Q) (ws : List (Wake T))
      (s : Publisher Q)
      → is_offline ws ≡ true
      → s.phase ≡ waiting_broker
      → outbox.held s.mqtt_publish ≡ []
      → run outbox h topic serialize publish ws s ≡ s
  unfolding run
  run-offline publish [] s off e empty = refl
  run-offline publish (w ∷ ws) s off e empty =
      let (same, rest) = wake-offline publish w ws s off empty in
      let same' : wake outbox h topic serialize publish s.phase w s ≡ s =
        subst (λ p. wake outbox h topic serialize publish p w s ≡ s) (sym e) same in
      ap (run outbox h topic serialize publish ws) same' ∙ run-offline publish ws s rest e empty
