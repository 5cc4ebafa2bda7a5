-- ===== src/Messaging/Kafka.antt =====
-- core/messaging/kafka/kafka.go: the bus, and the goroutines of its subscriptions.
pub mod Closing
pub mod Tracking
pub mod Pumps
pub mod Live
use muto.Prelude.{
  ℕ, String, ◌<>◌, ◌==◌, Bool, Option, none, some, List, [], ◌∷◌, ◌++◌, Result, ok, err, true, not,
  if◌then◌else◌,
}
use muto.Prelude.Dict.{Dict, lookup, insert, delete}
use muto.Messaging.{Config, MsgHandler}

-- sarama.Config, as New fills it in.
pub record SaramaConfig : Type 0 where
  pub return_successes : Bool
  pub sasl : Option (String × String)

-- sarama. `W` is the brokers and the open connections, `K` names the producers and consumers, `P` the
-- partition consumers.
pub record Sarama (W K P M : Type 0) : Type 0 where
  pub new_sync_producer : W → List String → SaramaConfig → W × Result String K
  pub new_consumer : W → List String → SaramaConfig → W × Result String K
  pub send_message : W → K → String → M → W × Option String
  pub consume_partition : W → K → String → W × Result String P
  pub close_partition : W → P → W × Option String
  pub close : W → K → W × Option String

pub data Error : Type 0 where
  producer_failed consumer_failed subscribe_failed send_failed : String → Error
  close_failed : List String → Error

pub record KafkaBus (K P : Type 0) : Type 0 where
  pub producer : K
  pub consumer : K
  pub brokers : List String
  pub subscriptions : Dict P

-- `fmt.Sprintf("%s-0", topic)`
abbrev pub key_of : String → String
key_of topic = topic <> "-0"

abbrev pub sarama_config : Config → SaramaConfig
sarama_config cfg = record {
  return_successes = true;
  sasl = if not (cfg.username == "") then some (cfg.username, cfg.password) else none;
}

-- A goroutine of Subscribe: its key and its partition consumer.
pub record Pump (P : Type 0) : Type 0 where
  pub key : String
  pub consumer : P

module _ {W K P M : Type 0} (sarama : Sarama W K P M) where
  with_consumer : Config → K → W × Result String K → W × Result Error (KafkaBus K P)
  with_consumer cfg producer (w, err e) = ((sarama.close w producer).0, err (consumer_failed e))
  with_consumer cfg producer (w, ok consumer) = (
    w,
    ok (record {
      producer = producer;
      consumer = consumer;
      brokers = cfg.urls;
      subscriptions = [];
    }),
  )

  with_producer : Config → W × Result String K → W × Result Error (KafkaBus K P)
  unfolding with_consumer
  with_producer cfg (w, err e) = (w, err (producer_failed e))
  with_producer cfg (w, ok producer) =
      with_consumer cfg producer (sarama.new_consumer w cfg.urls (sarama_config cfg))

  unfoldable pub new : W → Config → W × Result Error (KafkaBus K P)
  unfolding with_producer
  new w cfg = with_producer cfg (sarama.new_sync_producer w cfg.urls (sarama_config cfg))

  unfoldable pub publish : W → KafkaBus K P → String → M → W × Option String
  publish w b topic msg = sarama.send_message w b.producer topic msg

  subscribed :
      KafkaBus K P → String → W × Result String P → W × KafkaBus K P × Result Error (Pump P)
  subscribed b topic (w, err e) = (w, b, err (subscribe_failed e))
  subscribed b topic (w, ok pc) = (
    w,
    record b { subscriptions = insert (key_of topic) pc b.subscriptions },
    ok (record { key = key_of topic; consumer = pc }),
  )

  -- Subscribe; its goroutine is the pump that it gives.
  unfoldable pub subscribe : W → KafkaBus K P → String → W × KafkaBus K P × Result Error (Pump P)
  unfolding subscribed
  subscribe w b topic = subscribed b topic (sarama.consume_partition w b.consumer topic)

  -- A message that reaches a pump: the handler's error is dropped.
  unfoldable pub pump_message : {S : Type 0} → MsgHandler S M → String → M → S → S
  pump_message handler topic msg s = (handler topic msg s).0

  -- The end of a pump's context: the consumer is closed, and its error dropped.
  unfoldable pub stop_pump : W → Pump P → W
  stop_pump w pump = (sarama.close_partition w pump.consumer).0

  -- The deferred function of a pump.
  unfoldable pub forget_pump : KafkaBus K P → Pump P → KafkaBus K P
  forget_pump b pump = record b { subscriptions = delete pump.key b.subscriptions }

  collect : Option String → List String → List String
  collect none errs = errs
  collect (some e) errs = e ∷ errs

  -- The loop of Close over the subscriptions; an error does not end it.
  unfoldable pub close_partitions : W → Dict P → W × List String
  unfolding collect
  close_partitions w [] = (w, [])
  close_partitions w ((key, pc) ∷ rest) =
      let (w', failure) = sarama.close_partition w pc in
      let (w'', errs) = close_partitions w' rest in (w'', collect failure errs)

  close_error : List String → Option Error
  close_error [] = none
  close_error (e ∷ errs) = some (close_failed (e ∷ errs))

  -- Close: the subscriptions, then the producer, then the consumer.
  unfoldable pub close : W → KafkaBus K P → W × KafkaBus K P × Option Error
  unfolding collect close_error
  close w b =
      let (w₁, errs) = close_partitions w b.subscriptions in
      let (w₂, e₂) = sarama.close w₁ b.producer in
      let (w₃, e₃) = sarama.close w₂ b.consumer in
      (w₃, record b { subscriptions = [] }, close_error (errs ++ (collect e₂ [] ++ collect e₃ [])))
