-- ===== src/K8s/DeepCopy/Structs.antt =====
-- platform/k8s/types/v1alpha1 in memory: the structs whose fields hold slices and pointers, each over what
-- stands for those fields, and the arrays of the heap.
use muto.Prelude.{String, Option, List}
use muto.Prelude.Int.{ℤ}
use muto.Agent.{Phase}
use muto.K8s.Types.{
  TriggerSpec, AgentRoleSpec, JobBusSpec, AgentFleetStatus, TenantBusSpec, TenantSpec, TenantStatus,
}
use muto.K8s.Memory.{Pointer, Slice}

-- metav1.TypeMeta
pub record TypeMeta : Type 0 where
  pub kind : String
  pub api_version : String

pub record JobSpecOf (R : Type 0) : Type 0 where
  pub tenant_ref : String
  pub trigger : TriggerSpec
  pub agents : R
  pub message_bus : JobBusSpec
  pub ttl_after_completion : ℤ

pub record JobStatusOf (T : Type 0) : Type 0 where
  pub phase : Phase
  pub active_agents : ℤ
  pub started_at : T
  pub completed_at : T

pub record FleetSpecOf (R : Type 0) : Type 0 where
  pub tenant_ref : String
  pub job_refs : R

-- AgentJob, AgentFleet and Tenant have these four fields; their lists the three below.
pub record Resource (M S T : Type 0) : Type 0 where
  pub type_meta : TypeMeta
  pub metadata : M
  pub spec : S
  pub status : T

pub record ResourceList (L I : Type 0) : Type 0 where
  pub type_meta : TypeMeta
  pub metadata : L
  pub items : I

abbrev pub JobSpec : Type 0
JobSpec = JobSpecOf (Option Slice)

abbrev pub JobStatus : Type 0
JobStatus = JobStatusOf (Option Pointer)

abbrev pub JobAt : Type 0 → Type 0
JobAt M = Resource M JobSpec JobStatus

abbrev pub FleetSpec : Type 0
FleetSpec = FleetSpecOf (Option Slice)

abbrev pub Fleet : Type 0 → Type 0
Fleet M = Resource M FleetSpec AgentFleetStatus

abbrev pub TenantAt : Type 0 → Type 0
TenantAt M = Resource M TenantSpec TenantStatus

abbrev pub ListAt : Type 0 → Type 0
ListAt L = ResourceList L (Option Slice)

-- `M` is metav1.ObjectMeta, `L` metav1.ListMeta, and `X` what they and metav1.Time keep in memory.
pub data Cell (M L X : Type 0) : Type 0 where
  strings : List String → Cell M L X
  triggers : List (TriggerSpec) → Cell M L X
  roles : List (AgentRoleSpec) → Cell M L X
  job_buses : List (JobBusSpec) → Cell M L X
  job_specs : List (JobSpec) → Cell M L X
  job_statuses : List (JobStatus) → Cell M L X
  jobs : List (JobAt M) → Cell M L X
  job_lists : List (ListAt L) → Cell M L X
  fleet_specs : List (FleetSpec) → Cell M L X
  fleet_statuses : List (AgentFleetStatus) → Cell M L X
  fleets : List (Fleet M) → Cell M L X
  fleet_lists : List (ListAt L) → Cell M L X
  tenant_buses : List (TenantBusSpec) → Cell M L X
  tenant_specs : List (TenantSpec) → Cell M L X
  tenant_statuses : List (TenantStatus) → Cell M L X
  tenants : List (TenantAt M) → Cell M L X
  tenant_lists : List (ListAt L) → Cell M L X
  outside : X → Cell M L X
