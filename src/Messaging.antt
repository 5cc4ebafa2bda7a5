-- ===== src/Messaging.antt =====
-- core/messaging/bus.go and registry.go: the interface MessageBus and the registry of its constructors;
-- platform/k8s/eventwatcher.go, a client of a bus.
pub mod Kafka
pub mod Nats
use muto.Prelude.{String, Option, none, some, List, [], Result, ok, err, map}
use muto.Prelude.Dict.{Dict, lookup, insert}

pub record Config : Type 0 where
  pub urls : List String
  pub username : String
  pub password : String

abbrev pub bus_type_nats : String
bus_type_nats = "nats"

abbrev pub bus_type_kafka : String
bus_type_kafka = "kafka"

-- agent.MsgHandler: what it does to the state of the program, and its error.
abbrev pub MsgHandler : Type 0 → Type 0 → Type 0
MsgHandler S M = String → M → S → S × Option String

-- `S` is the state of the bus and its broker; a handler is kept by what it is a closure of, `H`.
pub record MessageBus (S H M E : Type 0) : Type 0 where
  pub publish : S → String → M → S × Option E
  pub subscribe : S → String → H → S × Option E
  pub close : S → S × Option E

-- The package variable `constructors`; `B` is what a constructor returns.
abbrev pub Constructors : Type 0 → Type 0
Constructors B = Dict (Config → B)

abbrev pub Unknown : Type 0
Unknown = String × List String

module _ {B : Type 0} where
  unfoldable pub register : Constructors B → String → (Config → B) → Constructors B
  register constructors t fn = insert t fn constructors

  unfoldable pub registered_types : Constructors B → List String
  registered_types constructors = map (λ entry. entry.0) constructors

  -- The error quotes the type, and lists the registered ones.
  unfoldable pub new_bus : Constructors B → String → Config → Result Unknown B
  unfolding registered_types
  new_bus constructors t cfg = elim (lookup t constructors) [
    | none ↦ err (t, registered_types constructors)
    | some fn ↦ ok (fn cfg)
  ]

-- platform/k8s/eventwatcher.go. The handler is kept with the tenant's id that it is called with.
pub record EventWatcher : Type 0 where
  pub topic : String
  pub tenant_id : String

abbrev pub EventHandler : Type 0 → Type 0 → Type 0
EventHandler S M = String → String → M → S → S × Option String

module _ {S M : Type 0} where
  -- The function that Start subscribes with.
  unfoldable pub on_message : EventHandler S M → EventWatcher → MsgHandler S M
  on_message handler w topic msg = handler w.tenant_id topic msg

  unfoldable pub start :
      {E : Type 0}
      → MessageBus S (MsgHandler S M) M E
      → EventHandler S M
      → EventWatcher
      → S
      → S × Option E
  unfolding on_message
  start bus handler w s = bus.subscribe s w.topic (on_message handler w)
