-- ===== src/Messaging/Kafka/Tracking.antt =====
-- core/messaging/kafka/kafka.go: two subscriptions of one topic, and the map that Close reads.
use muto.Prelude.{◌≡◌, String, none, some, ok, arith}
use muto.Prelude.Dict.{lookup, lookup-insert_self, dict_laws}
use muto.Messaging.Kafka.{Sarama, KafkaBus, Pump, key_of, subscribe, forget_pump}

module _ {W K P M : Type 0} (sarama : Sarama W K P M) where
  -- The entry of the topic, once Subscribe has returned no error.
  subscribe-tracks :
      (w : W) (b : KafkaBus K P) (topic : String) (p : Pump P)
      → (subscribe sarama w b topic).2 ≡ ok p
      → (lookup (key_of topic) (subscribe sarama w b topic).1.subscriptions ≡ some p.consumer)
        × (p.key ≡ key_of topic)
  unfolding subscribe
  subscribe-tracks w b topic p h =
      ground (arith, lookup-insert_self (key_of topic) p.consumer b.subscriptions)

  -- A topic is subscribed to, and later, when the broker admits it, again; if the first goroutine runs
  -- its deferred function only after that, it removes the second one's entry: the new consumer was in
  -- the map, and no entry of the map is left for the topic, so Close does not close it.
  pub forget_pump-untracks :
      (w w' : W) (b : KafkaBus K P) (topic : String) (p q : Pump P)
      → (subscribe sarama w b topic).2 ≡ ok p
      → (subscribe sarama w' (subscribe sarama w b topic).1 topic).2 ≡ ok q
      → (lookup
            (key_of topic)
            (subscribe sarama w' (subscribe sarama w b topic).1 topic).1.subscriptions
          ≡ some q.consumer)
        × (lookup
              (key_of topic)
              (forget_pump sarama
                (subscribe sarama w' (subscribe sarama w b topic).1 topic).1
                p).subscriptions
            ≡ none)
  unfolding forget_pump
  forget_pump-untracks w w' b topic p q h k =
      let first = subscribe-tracks w b topic p h in
      let b₂ = (subscribe sarama w' (subscribe sarama w b topic).1 topic).1 in
      (
        (subscribe-tracks w' (subscribe sarama w b topic).1 topic q k).0,
        rw first.1 (simp dict_laws),
      )
