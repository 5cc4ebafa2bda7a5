-- ===== src/K8s/Types.antt =====
-- platform/k8s/types/v1alpha1: the custom resources. Of the metadata the fields are kept that the
-- reconcilers read or write.
use muto.Prelude.{String, List, Option, Bool}
use muto.Prelude.Int.{ℤ}
use muto.Agent.{Phase}

pub record TriggerSpec : Type 0 where
  pub type : String
  pub source : String

-- `max_replicas` is an int32.
pub record AgentRoleSpec : Type 0 where
  pub role : String
  pub image : String
  pub command : String
  pub max_replicas : ℤ

pub record JobBusSpec : Type 0 where
  pub topic : String

-- `ttl_after_completion` is an int32, in seconds.
pub record AgentJobSpec : Type 0 where
  pub tenant_ref : String
  pub trigger : TriggerSpec
  pub agents : List AgentRoleSpec
  pub message_bus : JobBusSpec
  pub ttl_after_completion : ℤ

-- The phase is a string of the same values as the scheduler's. Times are in nanoseconds.
pub record AgentJobStatus : Type 0 where
  pub phase : Phase
  pub active_agents : ℤ
  pub started_at : Option ℤ
  pub completed_at : Option ℤ

pub record AgentJob : Type 0 where
  pub name : String
  pub namespace : String
  pub spec : AgentJobSpec
  pub status : AgentJobStatus

pub record TenantBusSpec : Type 0 where
  pub type : String
  pub dedicated : Bool

pub record TenantSpec : Type 0 where
  pub namespace : String
  pub isolation_tier : String
  pub message_bus : TenantBusSpec

pub record TenantStatus : Type 0 where
  pub ready : Bool

-- `deleting`: the deletion timestamp is set.
pub record Tenant : Type 0 where
  pub name : String
  pub deleting : Bool
  pub finalizers : List String
  pub spec : TenantSpec
  pub status : TenantStatus

pub record AgentFleetSpec : Type 0 where
  pub tenant_ref : String
  pub job_refs : List String

-- The three counts are int32.
pub record AgentFleetStatus : Type 0 where
  pub total_jobs : ℤ
  pub running_jobs : ℤ
  pub completed_jobs : ℤ

pub record AgentFleet : Type 0 where
  pub name : String
  pub namespace : String
  pub spec : AgentFleetSpec
  pub status : AgentFleetStatus
