-- ===== src/K8s/DeepCopy/Generated.antt =====
-- platform/k8s/types/v1alpha1/zz_generated.deepcopy.go: the generated functions.
use muto.Prelude.{Option, none, some}
use muto.K8s.Types.{
  TriggerSpec, AgentRoleSpec, JobBusSpec, AgentFleetStatus, TenantBusSpec, TenantSpec, TenantStatus,
}
use muto.K8s.Memory.{Heap, Pointer}
use muto.K8s.DeepCopy.{Into, copy_flat, copy_slice, copy_pointer, deep_copy}
use muto.K8s.DeepCopy.Structs.{Cell, JobSpec, JobStatus, JobAt, FleetSpec, Fleet, TenantAt, ListAt}
use muto.K8s.DeepCopy.Kinds.{
  strings_kind, triggers_kind, roles_kind, job_buses_kind, job_specs_kind, job_statuses_kind,
  jobs_kind, job_lists_kind, fleet_specs_kind, fleet_statuses_kind, fleets_kind, fleet_lists_kind,
  tenant_buses_kind, tenant_specs_kind, tenant_statuses_kind, tenants_kind, tenant_lists_kind,
}

-- The deep copies of metav1.ObjectMeta, metav1.ListMeta and metav1.Time.
pub record Metav1 (M L X : Type 0) : Type 0 where
  pub object_meta_into : Into (Cell M L X) M
  pub list_meta_into : Into (Cell M L X) L
  pub time_deep_copy : Into (Cell M L X) Pointer

-- A runtime.Object: nil, or a pointer with its type, itself perhaps nil.
pub data RuntimeObject : Type 0 where
  nil : RuntimeObject
  agent_job agent_job_list agent_fleet agent_fleet_list tenant tenant_list :
      Option Pointer → RuntimeObject

-- `if c := in.DeepCopy(); c != nil { return c }; return nil`
abbrev pub as_object :
    {C : Type 0}
    → (Option Pointer → RuntimeObject)
    → Heap C × Option Pointer
    → Heap C × RuntimeObject
as_object wrap (h, none) = (h, nil)
as_object wrap (h, some c) = (h, wrap (some c))

module _ {M L X : Type 0} (m : Metav1 M L X) where
  unfoldable pub trigger_spec_into : Into (Cell M L X) (TriggerSpec)
  trigger_spec_into h x = (h, x)

  unfoldable pub trigger_spec_deep_copy : Into (Cell M L X) (Option Pointer)
  unfolding deep_copy trigger_spec_into
  trigger_spec_deep_copy = deep_copy trigger_spec_into triggers_kind

  unfoldable pub agent_role_spec_into : Into (Cell M L X) (AgentRoleSpec)
  agent_role_spec_into h x = (h, x)

  unfoldable pub agent_role_spec_deep_copy : Into (Cell M L X) (Option Pointer)
  unfolding deep_copy agent_role_spec_into
  agent_role_spec_deep_copy = deep_copy agent_role_spec_into roles_kind

  unfoldable pub job_bus_spec_into : Into (Cell M L X) (JobBusSpec)
  job_bus_spec_into h x = (h, x)

  unfoldable pub job_bus_spec_deep_copy : Into (Cell M L X) (Option Pointer)
  unfolding deep_copy job_bus_spec_into
  job_bus_spec_deep_copy = deep_copy job_bus_spec_into job_buses_kind

  unfoldable pub agent_job_spec_into : Into (Cell M L X) (JobSpec)
  unfolding copy_flat
  agent_job_spec_into h spec =
      let (h', agents) = copy_flat roles_kind h spec.agents in (h', record spec { agents = agents })

  unfoldable pub agent_job_spec_deep_copy : Into (Cell M L X) (Option Pointer)
  unfolding deep_copy agent_job_spec_into
  agent_job_spec_deep_copy = deep_copy agent_job_spec_into job_specs_kind

  unfoldable pub agent_job_status_into : Into (Cell M L X) (JobStatus)
  unfolding copy_pointer
  agent_job_status_into h status =
      let (h', started) = copy_pointer m.time_deep_copy h status.started_at in
      let (h'', completed) = copy_pointer m.time_deep_copy h' status.completed_at in
      (h'', record status { started_at = started; completed_at = completed })

  unfoldable pub agent_job_status_deep_copy : Into (Cell M L X) (Option Pointer)
  unfolding deep_copy agent_job_status_into
  agent_job_status_deep_copy = deep_copy agent_job_status_into job_statuses_kind

  unfoldable pub agent_job_into : Into (Cell M L X) (JobAt M)
  unfolding agent_job_spec_into agent_job_status_into
  agent_job_into h job =
      let (h₁, metadata) = m.object_meta_into h job.metadata in
      let (h₂, spec) = agent_job_spec_into h₁ job.spec in
      let (h₃, status) = agent_job_status_into h₂ job.status in
      (h₃, record job { metadata = metadata; spec = spec; status = status })

  unfoldable pub agent_job_deep_copy : Into (Cell M L X) (Option Pointer)
  unfolding deep_copy agent_job_into
  agent_job_deep_copy = deep_copy agent_job_into jobs_kind

  unfoldable pub agent_job_deep_copy_object :
      Heap (Cell M L X) → Option Pointer → Heap (Cell M L X) × RuntimeObject
  unfolding agent_job_deep_copy
  agent_job_deep_copy_object h p = as_object agent_job (agent_job_deep_copy h p)

  unfoldable pub agent_job_list_into : Into (Cell M L X) (ListAt L)
  unfolding copy_slice agent_job_into
  agent_job_list_into h list =
      let (h', metadata) = m.list_meta_into h list.metadata in
      let (h'', items) = copy_slice agent_job_into jobs_kind h' list.items in
      (h'', record list { metadata = metadata; items = items })

  unfoldable pub agent_job_list_deep_copy : Into (Cell M L X) (Option Pointer)
  unfolding deep_copy agent_job_list_into
  agent_job_list_deep_copy = deep_copy agent_job_list_into job_lists_kind

  unfoldable pub agent_job_list_deep_copy_object :
      Heap (Cell M L X) → Option Pointer → Heap (Cell M L X) × RuntimeObject
  unfolding agent_job_list_deep_copy
  agent_job_list_deep_copy_object h p = as_object agent_job_list (agent_job_list_deep_copy h p)

  unfoldable pub agent_fleet_spec_into : Into (Cell M L X) (FleetSpec)
  unfolding copy_flat
  agent_fleet_spec_into h spec =
      let (h', job_refs) = copy_flat strings_kind h spec.job_refs in
      (h', record spec { job_refs = job_refs })

  unfoldable pub agent_fleet_spec_deep_copy : Into (Cell M L X) (Option Pointer)
  unfolding deep_copy agent_fleet_spec_into
  agent_fleet_spec_deep_copy = deep_copy agent_fleet_spec_into fleet_specs_kind

  unfoldable pub agent_fleet_status_into : Into (Cell M L X) (AgentFleetStatus)
  agent_fleet_status_into h x = (h, x)

  unfoldable pub agent_fleet_status_deep_copy : Into (Cell M L X) (Option Pointer)
  unfolding deep_copy agent_fleet_status_into
  agent_fleet_status_deep_copy = deep_copy agent_fleet_status_into fleet_statuses_kind

  unfoldable pub agent_fleet_into : Into (Cell M L X) (Fleet M)
  unfolding agent_fleet_spec_into
  agent_fleet_into h fleet =
      let (h₁, metadata) = m.object_meta_into h fleet.metadata in
      let (h₂, spec) = agent_fleet_spec_into h₁ fleet.spec in
      (h₂, record fleet { metadata = metadata; spec = spec })

  unfoldable pub agent_fleet_deep_copy : Into (Cell M L X) (Option Pointer)
  unfolding deep_copy agent_fleet_into
  agent_fleet_deep_copy = deep_copy agent_fleet_into fleets_kind

  unfoldable pub agent_fleet_deep_copy_object :
      Heap (Cell M L X) → Option Pointer → Heap (Cell M L X) × RuntimeObject
  unfolding agent_fleet_deep_copy
  agent_fleet_deep_copy_object h p = as_object agent_fleet (agent_fleet_deep_copy h p)

  unfoldable pub agent_fleet_list_into : Into (Cell M L X) (ListAt L)
  unfolding copy_slice agent_fleet_into
  agent_fleet_list_into h list =
      let (h', metadata) = m.list_meta_into h list.metadata in
      let (h'', items) = copy_slice agent_fleet_into fleets_kind h' list.items in
      (h'', record list { metadata = metadata; items = items })

  unfoldable pub agent_fleet_list_deep_copy : Into (Cell M L X) (Option Pointer)
  unfolding deep_copy agent_fleet_list_into
  agent_fleet_list_deep_copy = deep_copy agent_fleet_list_into fleet_lists_kind

  unfoldable pub agent_fleet_list_deep_copy_object :
      Heap (Cell M L X) → Option Pointer → Heap (Cell M L X) × RuntimeObject
  unfolding agent_fleet_list_deep_copy
  agent_fleet_list_deep_copy_object h p =
      as_object agent_fleet_list (agent_fleet_list_deep_copy h p)

  unfoldable pub tenant_bus_spec_into : Into (Cell M L X) (TenantBusSpec)
  tenant_bus_spec_into h x = (h, x)

  unfoldable pub tenant_bus_spec_deep_copy : Into (Cell M L X) (Option Pointer)
  unfolding deep_copy tenant_bus_spec_into
  tenant_bus_spec_deep_copy = deep_copy tenant_bus_spec_into tenant_buses_kind

  unfoldable pub tenant_spec_into : Into (Cell M L X) (TenantSpec)
  tenant_spec_into h x = (h, x)

  unfoldable pub tenant_spec_deep_copy : Into (Cell M L X) (Option Pointer)
  unfolding deep_copy tenant_spec_into
  tenant_spec_deep_copy = deep_copy tenant_spec_into tenant_specs_kind

  unfoldable pub tenant_status_into : Into (Cell M L X) (TenantStatus)
  tenant_status_into h x = (h, x)

  unfoldable pub tenant_status_deep_copy : Into (Cell M L X) (Option Pointer)
  unfolding deep_copy tenant_status_into
  tenant_status_deep_copy = deep_copy tenant_status_into tenant_statuses_kind

  unfoldable pub tenant_into : Into (Cell M L X) (TenantAt M)
  tenant_into h t =
      let (h', metadata) = m.object_meta_into h t.metadata in (h', record t { metadata = metadata })

  unfoldable pub tenant_deep_copy : Into (Cell M L X) (Option Pointer)
  unfolding deep_copy tenant_into
  tenant_deep_copy = deep_copy tenant_into tenants_kind

  unfoldable pub tenant_deep_copy_object :
      Heap (Cell M L X) → Option Pointer → Heap (Cell M L X) × RuntimeObject
  unfolding tenant_deep_copy
  tenant_deep_copy_object h p = as_object tenant (tenant_deep_copy h p)

  unfoldable pub tenant_list_into : Into (Cell M L X) (ListAt L)
  unfolding copy_slice tenant_into
  tenant_list_into h list =
      let (h', metadata) = m.list_meta_into h list.metadata in
      let (h'', items) = copy_slice tenant_into tenants_kind h' list.items in
      (h'', record list { metadata = metadata; items = items })

  unfoldable pub tenant_list_deep_copy : Into (Cell M L X) (Option Pointer)
  unfolding deep_copy tenant_list_into
  tenant_list_deep_copy = deep_copy tenant_list_into tenant_lists_kind

  unfoldable pub tenant_list_deep_copy_object :
      Heap (Cell M L X) → Option Pointer → Heap (Cell M L X) × RuntimeObject
  unfolding tenant_list_deep_copy
  tenant_list_deep_copy_object h p = as_object tenant_list (tenant_list_deep_copy h p)
