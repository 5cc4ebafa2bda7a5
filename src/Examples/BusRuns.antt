-- ===== src/Examples/BusRuns.antt =====
-- Runs of core/messaging and core/a2a, on a broker that notes what it is asked.
use muto.Prelude.{
  ℕ, suc, String, ◌<>◌, ◌==◌, none, some, List, [], ◌∷◌, ok, ◌≡◌, refl, if◌then◌else◌, All,
}
use muto.Prelude.Dict.{lookup, insert}
use muto.Prelude.Int.{pos}
use muto.Messaging.{EventHandler, EventWatcher, on_message}
use muto.Messaging.Kafka
use muto.Messaging.Kafka.{Sarama, KafkaBus, Pump}
use mathlib.Core.List.{Memᴰ}
use muto.Messaging.Kafka.Closing.{Target, partition, targets}
use muto.Messaging.Kafka.Live.{Running, Step, Reach, fresh, Reach-closes}
use muto.Messaging.Kafka.Pumps.{find}
use muto.Messaging.Kafka.Tracking.{forget_pump-untracks}
use muto.Messaging.Nats.{Nats}
use muto.Messaging.Nats.Delivery.{deliver_all, handle_all, settle_all, deliver_all-settled}
use muto.A2a.{Http, A2aClient, send_task, send_request, do_request, result_of}
use muto.A2a.Requests.{IsAuthorized, IsExchange, send_task_ok}

abbrev Log : Type 0
Log = List String

-- A consumer is named after its topic.
abbrev sarama : Sarama Log String String String
sarama = record {
  new_sync_producer = λ w urls cfg. (w, ok "producer");
  new_consumer = λ w urls cfg. (w, ok "consumer");
  send_message = λ w k topic msg. ("send" ∷ w, none);
  consume_partition = λ w k topic. ("consume" ∷ w, ok topic);
  close_partition = λ w p. ("close" ∷ w, some "late");
  close = λ w k. (k ∷ w, none);
}

abbrev bus : KafkaBus String String
bus = record { producer = "producer"; consumer = "consumer"; brokers = []; subscriptions = [] }

abbrev pump : Pump String
pump = record { key = "jobs-0"; consumer = "jobs" }

forget_pump-untracks_example :
    (lookup "jobs-0"
        (Kafka.subscribe sarama [] (Kafka.subscribe sarama [] bus "jobs").1 "jobs").1.subscriptions
      ≡ some "jobs")
    × (lookup "jobs-0"
          (Kafka.forget_pump sarama
            (Kafka.subscribe sarama [] (Kafka.subscribe sarama [] bus "jobs").1 "jobs").1
            pump).subscriptions
        ≡ none)
unfolding Kafka.subscribe insert lookup
forget_pump-untracks_example = forget_pump-untracks sarama [] [] bus "jobs" pump pump refl refl

-- Two topics are subscribed to, and the goroutine of the first ends.
abbrev start : Running sarama
start = fresh sarama "producer" "consumer" []

abbrev first : Running sarama
first = record { bus = (Kafka.subscribe sarama [] bus "jobs").1; live = pump ∷ [] }

abbrev logs : Pump String
logs = record { key = "logs-0"; consumer = "logs" }

abbrev second : Running sarama
second = record { bus = (Kafka.subscribe sarama [] first.bus "logs").1; live = logs ∷ pump ∷ [] }

abbrev last : Running sarama
last = record { bus = Kafka.forget_pump sarama second.bus pump; live = logs ∷ [] }

run : Reach sarama start last
unfolding Kafka.subscribe
run =
    Reach.then_step
      (Reach.then_step
        (Reach.then_step Reach.begun (Step.subscribing {x = start} {p = pump} [] "jobs" refl tt))
        (Step.subscribing {x = first} {p = logs} [] "logs" refl (refl, tt)))
      (Step.leaving {x = second} (logs ∷ []) pump [] refl)

Reach-closes_example :
    ((k : String) → lookup k last.bus.subscriptions ≡ find k last.live)
    × All (λ p. Memᴰ {A = Target String String} (partition p.consumer) (targets last.bus)) last.live
Reach-closes_example = Reach-closes sarama "producer" "consumer" [] run

-- A message is its subject.
abbrev nats : Nats Log String String String String
nats = record {
  connect = λ w url user. (w, ok "conn");
  jet_stream = λ w c. (w, ok "js");
  publish = λ w js topic msg. (w, none);
  subscribe = λ w js topic. (w, ok topic);
  unsubscribe = λ w u. (w, none);
  close = λ w c. w;
  ack = λ w m. ((m <> " ack") ∷ w, none);
  nak = λ w m. ((m <> " nak") ∷ w, none);
  subject = λ m. m;
}

-- Counts the messages, and refuses those of one topic.
abbrev counting : EventHandler ℕ String
counting tenant_id topic msg n = if topic == "bad" then (suc n, some "bad topic") else (suc n, none)

abbrev watcher : EventWatcher
watcher = record { topic = "tenant.acme.>"; tenant_id = "acme" }

deliver_all-settled_example :
    deliver_all nats (on_message counting watcher) [] ("good" ∷ "bad" ∷ "good" ∷ []) 0 ≡ (
      settle_all nats []
          ("good" ∷ "bad" ∷ "good" ∷ [])
          (handle_all nats counting "acme" ("good" ∷ "bad" ∷ "good" ∷ []) 0).1,
      (handle_all nats counting "acme" ("good" ∷ "bad" ∷ "good" ∷ []) 0).0,
    )
deliver_all-settled_example =
    deliver_all-settled nats counting watcher [] ("good" ∷ "bad" ∷ "good" ∷ []) 0

-- A gateway that accepts every task.
abbrev gateway : Http Log String
gateway = record {
  marshal_task = λ agent payload. ok (agent <> payload);
  parse_url = λ url. none;
  send = λ w req. (req.url ∷ w, ok (record { status_code = pos 202; read_body = ok "t" }));
  close = λ w. "close" ∷ w;
  unmarshal = λ raw. ok (record { task_id = raw; state = "submitted"; output = "" });
}

abbrev client : A2aClient
client = record { gateway_url = "http://gw"; auth_token = "secret" }

send_task_ok_example :
    (body : String) × (gateway.marshal_task "agent" "do" ≡ ok body)
    × IsAuthorized client (send_request client body)
    × IsExchange gateway []
        (send_request client body)
        (send_task gateway client [] "agent" "do").0
        (record { task_id = "t"; state = "submitted"; output = "" })
unfolding send_task do_request result_of
send_task_ok_example =
    send_task_ok gateway client [] "agent" "do"
      (record { task_id = "t"; state = "submitted"; output = "" }) refl
