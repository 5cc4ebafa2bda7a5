-- ===== src/Messaging/Kafka/Live.antt =====
-- core/messaging/kafka/kafka.go: the goroutines of the subscriptions beside the map that Close reads, for
-- every order of their steps.
use mathlib.Core.List.{Memᴰ}
use mathlib.Core.List.Memᴰ
use muto.Prelude.{
  ◌≡◌, refl, ◌∙◌, sym, ap, subst, String, ◌==◌, some, List, [], ◌∷◌, ◌++◌, Result, ok, err, All,
  arith, Bool-cases, inl, inr,
}
use muto.Prelude.Dict.{Dict, lookup, lookup-insert, lookup-delete, insert}
use muto.Messaging.Kafka.{Sarama, KafkaBus, Pump, Error, key_of, subscribe, subscribed, forget_pump}
use muto.Messaging.Kafka.Pumps.{find, IsFree, IsDistinct, IsDistinct-remove, find-remove, find_self}
use muto.Messaging.Kafka.Closing.{Target, partition, targets, targets_of}

lookup-targets :
    {K P : Type 0} (k : String) (m : Dict P) (c : P)
    → lookup k m ≡ some c
    → Memᴰ {A = Target K P} (partition c) (targets_of m)
unfolding lookup
lookup-targets k [] c h = cc
lookup-targets k ((key, pc) ∷ rest) c h = elim (Bool-cases (key == k)) [
  | inl b ↦ Memᴰ.head (ap partition (sym (ground arith)))
  | inr b ↦ Memᴰ.tail (lookup-targets k rest c (ground arith))
]

module _ {W K P M : Type 0} (sarama : Sarama W K P M) where
  -- The bus, and the goroutines whose deferred function has not run.
  pub record Running : Type 0 where
    pub bus : KafkaBus K P
    pub live : List (Pump P)

  -- Subscribe, for a topic that no live goroutine reads or in vain, and the deferred function of a
  -- goroutine, which ends it; the broker is in any state `w`.
  pub data Step : Running → Running → Type 0 where
    subscribing :
        {x : Running} {p : Pump P} (w : W) (topic : String)
        → (subscribe sarama w x.bus topic).2 ≡ ok p
        → IsFree (key_of topic) x.live
        → Step x (record { bus = (subscribe sarama w x.bus topic).1; live = p ∷ x.live })
    refused :
        {x : Running} {e : Error} (w : W) (topic : String)
        → (subscribe sarama w x.bus topic).2 ≡ err e
        → Step x (record x { bus = (subscribe sarama w x.bus topic).1 })
    leaving :
        {x : Running} (before : List (Pump P)) (p : Pump P) (after : List (Pump P))
        → x.live ≡ before ++ p ∷ after
        → Step x (record { bus = forget_pump sarama x.bus p; live = before ++ after })

  pub data Reach : Running → Running → Type 0 where
    begun : {x : Running} → Reach x x
    then_step : {x y z : Running} → Reach x y → Step y z → Reach x z

  record Tracked (x : Running) : Type 0 where
    distinct : IsDistinct x.live
    same : (k : String) → lookup k x.bus.subscriptions ≡ find k x.live

  subscribed-ok :
      (b : KafkaBus K P) (topic : String) (out : W × Result String P) {p : Pump P}
      → (subscribed sarama b topic out).2 ≡ ok p
      → ((subscribed sarama b topic out).1.subscriptions
          ≡ insert (key_of topic) p.consumer b.subscriptions)
        × (p.key ≡ key_of topic)
  unfolding subscribed
  subscribed-ok b topic (w, err e) h = cc
  subscribed-ok b topic (w, ok pc) h = ground (arith)

  subscribed-err :
      (b : KafkaBus K P) (topic : String) (out : W × Result String P) {e : Error}
      → (subscribed sarama b topic out).2 ≡ err e
      → (subscribed sarama b topic out).1 ≡ b
  unfolding subscribed
  subscribed-err b topic (w, err e) h = refl
  subscribed-err b topic (w, ok pc) h = cc

  Step-Tracked : {x y : Running} → Step x y → Tracked x → Tracked y
  unfolding subscribe forget_pump
  Step-Tracked (subscribing {x} {p} w topic h free) t =
      let (made, key) =
        subscribed-ok x.bus topic (sarama.consume_partition w x.bus.consumer topic) h in
      record {
        distinct = (rw key free, t.distinct);
        same = λ k.
            ap (lookup k) made
            ∙ lookup-insert (key_of topic) k p.consumer x.bus.subscriptions
            ∙ rw (t.same k, key) refl;
      }
  Step-Tracked (refused {x} w topic h) t =
      let same = subscribed-err x.bus topic (sarama.consume_partition w x.bus.consumer topic) h in
      record { distinct = t.distinct; same = λ k. rw same (t.same k) }
  Step-Tracked (leaving {x} before p after e) t =
      let d = subst IsDistinct e t.distinct in
      record {
        distinct = IsDistinct-remove before p after d;
        same = λ k.
            lookup-delete p.key k x.bus.subscriptions
            ∙ (rw (t.same k, e) (sym (find-remove k before p after d)));
      }

  Reach-Tracked : {x y : Running} → Tracked x → Reach x y → Tracked y
  Reach-Tracked t begun = t
  Reach-Tracked t (then_step past step) = Step-Tracked step (Reach-Tracked t past)

  -- A bus as New makes it: no subscriptions, no goroutines.
  abbrev pub fresh : K → K → List String → Running
  fresh producer consumer brokers = record {
    bus = record {
      producer = producer;
      consumer = consumer;
      brokers = brokers;
      subscriptions = [];
    };
    live = [];
  }

  fresh-Tracked :
      (producer consumer : K) (brokers : List String) → Tracked (fresh producer consumer brokers)
  unfolding lookup
  fresh-Tracked producer consumer brokers = record { distinct = tt; same = λ k. refl }

  closes :
      {x : Running}
      → Tracked x
      → (ps : List (Pump P)) → All (λ p. find p.key x.live ≡ some p.consumer) ps
      → All (λ p. Memᴰ {A = Target K P} (partition p.consumer) (targets x.bus)) ps
  closes t [] h = tt
  closes {x} t (p ∷ ps) h = (
    Memᴰ.append_left _ (lookup-targets p.key x.bus.subscriptions p.consumer (t.same p.key ∙ h.0)),
    closes t ps h.1,
  )

  -- From a new bus on, in every order of subscriptions, in vain or not, and of goroutines that end, as
  -- long as no topic is subscribed to while a goroutine of an earlier subscription to it lives: the map
  -- holds for every key the consumer of the live goroutine with that key, and nothing if there is
  -- none; so the consumers of all live goroutines are among what Close closes.
  pub Reach-closes :
      (producer consumer : K) (brokers : List String) {y : Running}
      → Reach (fresh producer consumer brokers) y
      → ((k : String) → lookup k y.bus.subscriptions ≡ find k y.live)
        × All (λ p. Memᴰ {A = Target K P} (partition p.consumer) (targets y.bus)) y.live
  Reach-closes producer consumer brokers {y} past =
      let t = Reach-Tracked (fresh-Tracked producer consumer brokers) past in
      (t.same, closes t y.live (find_self y.live t.distinct))
