-- ===== src/Agent.antt =====
-- core/agent/types.go: the data that the scheduler, the adapters and the tools exchange.
use muto.Prelude.{String, List, Option, Bool, true, false}
use muto.Prelude.Int.{ℤ}

-- `type Phase string`: the five constants, the zero value "", and any other text.
pub data Phase : Type 0 where
  unset pending running succeeded failed terminating : Phase
  other : String → Phase

abbrev pub is_terminal : Phase → Bool
is_terminal succeeded = true
is_terminal failed = true
is_terminal _ = false

pub data TriggerType : Type 0 where
  event cron manual : TriggerType
  other : String → TriggerType

-- `max_replicas` is an int32.
pub record AgentRole : Type 0 where
  pub role : String
  pub image : String
  pub command : String
  pub max_replicas : ℤ

pub record Trigger : Type 0 where
  pub type : TriggerType
  pub source : String

pub record MessageBusConfig : Type 0 where
  pub topic : String

-- `ttl_after_completion` is an int32.
pub record Spec : Type 0 where
  pub tenant_ref : String
  pub trigger : Trigger
  pub agents : List AgentRole
  pub message_bus : MessageBusConfig
  pub ttl_after_completion : ℤ

-- A `*time.Time` is an optional reading of the clock.
pub record Status : Type 0 where
  pub phase : Phase
  pub active_agents : ℤ
  pub started_at : Option ℤ
  pub completed_at : Option ℤ

pub record Job : Type 0 where
  pub id : String
  pub tenant_id : String
  pub spec : Spec
  pub status : Status

pub data EventType : Type 0 where
  started completed failed : EventType
  other : String → EventType

pub record Event : Type 0 where
  pub agent_id : String
  pub type : EventType
  pub message : String

-- The zero values of the types, as a Go composite literal leaves unnamed fields.
abbrev pub zero_trigger : Trigger
zero_trigger = record { type = TriggerType.other ""; source = "" }

abbrev pub zero_bus : MessageBusConfig
zero_bus = record { topic = "" }

abbrev pub zero_status : Status
zero_status = record {
  phase = unset;
  active_agents = ℤ.pos 0;
  started_at = Option.none;
  completed_at = Option.none;
}
