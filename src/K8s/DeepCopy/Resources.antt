-- ===== src/K8s/DeepCopy/Resources.antt =====
-- platform/k8s/types/v1alpha1/zz_generated.deepcopy.go: each generated function makes a deep copy, if
-- those of k8s.io/apimachinery do.
use muto.Prelude.{String, refl, Option, List}
use muto.K8s.Types.{AgentRoleSpec, AgentFleetStatus, TenantSpec, TenantStatus}
use muto.K8s.Memory.{Pointer}
use muto.K8s.DeepCopy.Deep.{Copier, IsDeep, both, both-IsDeep, Fields, fields, fields-IsDeep}
use muto.K8s.DeepCopy.Statements.{flat, flat-IsDeep, slice, slice-IsDeep}
use muto.K8s.DeepCopy.Pointers.{pointer, pointer-IsDeep}
use muto.K8s.DeepCopy.Structs.{
  Cell, JobSpecOf, JobStatusOf, FleetSpecOf, Resource, ResourceList, JobSpec, JobStatus, JobAt,
  FleetSpec, Fleet, TenantAt, ListAt,
}
use muto.K8s.DeepCopy.Kinds.{strings_kind, roles_kind, jobs_kind, fleets_kind, tenants_kind}
use muto.K8s.DeepCopy.Generated.{
  Metav1, agent_job_spec_into, agent_job_status_into, agent_job_into, agent_job_list_into,
  agent_fleet_spec_into, agent_fleet_into, agent_fleet_list_into, tenant_into, tenant_list_into,
}

abbrev agents_of : {A B : Type 0} → Fields (JobSpecOf A) A B (JobSpecOf B)
agents_of = record {
  get = λ s. s.agents;
  put = λ s a. record s { agents = a };
  see = λ s b. record {
    tenant_ref = s.tenant_ref;
    trigger = s.trigger;
    agents = b;
    message_bus = s.message_bus;
    ttl_after_completion = s.ttl_after_completion;
  };
  get-put = λ s a. refl;
  see-put = λ s a b. refl;
}

abbrev times_of : {A B : Type 0} → Fields (JobStatusOf A) (A × A) (B × B) (JobStatusOf B)
times_of = record {
  get = λ s. (s.started_at, s.completed_at);
  put = λ s a. record s { started_at = a.0; completed_at = a.1 };
  see = λ s b. record {
    phase = s.phase;
    active_agents = s.active_agents;
    started_at = b.0;
    completed_at = b.1;
  };
  get-put = λ s a. refl;
  see-put = λ s a b. refl;
}

abbrev job_refs_of : {A B : Type 0} → Fields (FleetSpecOf A) A B (FleetSpecOf B)
job_refs_of = record {
  get = λ s. s.job_refs;
  put = λ s a. record s { job_refs = a };
  see = λ s b. record { tenant_ref = s.tenant_ref; job_refs = b };
  get-put = λ s a. refl;
  see-put = λ s a b. refl;
}

-- All fields of an AgentJob; the first two, of an AgentFleet; the first, of a Tenant.
abbrev job_fields :
    {M M' S S' T T' : Type 0}
    → Fields (Resource M S T) (M × (S × T)) (M' × (S' × T')) (Resource M' S' T')
job_fields = record {
  get = λ r. (r.metadata, (r.spec, r.status));
  put = λ r a. record r { metadata = a.0; spec = a.1.0; status = a.1.1 };
  see = λ r b. record { type_meta = r.type_meta; metadata = b.0; spec = b.1.0; status = b.1.1 };
  get-put = λ r a. refl;
  see-put = λ r a b. refl;
}

abbrev fleet_fields :
    {M M' S S' T : Type 0} → Fields (Resource M S T) (M × S) (M' × S') (Resource M' S' T)
fleet_fields = record {
  get = λ r. (r.metadata, r.spec);
  put = λ r a. record r { metadata = a.0; spec = a.1 };
  see = λ r b. record { type_meta = r.type_meta; metadata = b.0; spec = b.1; status = r.status };
  get-put = λ r a. refl;
  see-put = λ r a b. refl;
}

abbrev tenant_fields : {M M' S T : Type 0} → Fields (Resource M S T) M M' (Resource M' S T)
tenant_fields = record {
  get = λ r. r.metadata;
  put = λ r a. record r { metadata = a };
  see = λ r b. record { type_meta = r.type_meta; metadata = b; spec = r.spec; status = r.status };
  get-put = λ r a. refl;
  see-put = λ r a b. refl;
}

abbrev list_fields :
    {L L' I I' : Type 0} → Fields (ResourceList L I) (L × I) (L' × I') (ResourceList L' I')
list_fields = record {
  get = λ r. (r.metadata, r.items);
  put = λ r a. record r { metadata = a.0; items = a.1 };
  see = λ r b. record { type_meta = r.type_meta; metadata = b.0; items = b.1 };
  get-put = λ r a. refl;
  see-put = λ r a b. refl;
}

module _ {M L X V U T : Type 0} (om : Copier (Cell M L X) M V) (lm : Copier (Cell M L X) L U)
    (tm : Copier (Cell M L X) Pointer T) where
  abbrev pub metav1 : Metav1 M L X
  metav1 = record { object_meta_into = om.into; list_meta_into = lm.into; time_deep_copy = tm.into }

  abbrev pub job_spec : Copier (Cell M L X) (JobSpec) (JobSpecOf (Option (List AgentRoleSpec)))
  job_spec = record (fields (flat roles_kind) agents_of) { into = agent_job_spec_into metav1 }

  abbrev pub job_status : Copier (Cell M L X) (JobStatus) (JobStatusOf (Option T))
  job_status = record (fields (both (pointer tm) (pointer tm)) times_of) {
    into = agent_job_status_into metav1;
  }

  abbrev pub job :
      Copier
        (Cell M L X)
        (JobAt M)
        (Resource V (JobSpecOf (Option (List AgentRoleSpec))) (JobStatusOf (Option T)))
  job = record (fields (both om (both job_spec job_status)) job_fields) {
    into = agent_job_into metav1;
  }

  abbrev pub job_list : Copier (Cell M L X) (ListAt L) (
      ResourceList U (
        Option
          (List (Resource V (JobSpecOf (Option (List AgentRoleSpec))) (JobStatusOf (Option T))))))
  job_list = record (fields (both lm (slice job jobs_kind)) list_fields) {
    into = agent_job_list_into metav1;
  }

  abbrev pub fleet_spec : Copier (Cell M L X) (FleetSpec) (FleetSpecOf (Option (List String)))
  fleet_spec = record (fields (flat strings_kind) job_refs_of) {
    into = agent_fleet_spec_into metav1;
  }

  abbrev pub fleet :
      Copier
        (Cell M L X)
        (Fleet M)
        (Resource V (FleetSpecOf (Option (List String))) AgentFleetStatus)
  fleet = record (fields (both om fleet_spec) fleet_fields) { into = agent_fleet_into metav1 }

  abbrev pub fleet_list : Copier (Cell M L X) (ListAt L) (
      ResourceList U
        (Option (List (Resource V (FleetSpecOf (Option (List String))) AgentFleetStatus))))
  fleet_list = record (fields (both lm (slice fleet fleets_kind)) list_fields) {
    into = agent_fleet_list_into metav1;
  }

  abbrev pub tenant : Copier (Cell M L X) (TenantAt M) (Resource V TenantSpec TenantStatus)
  tenant = record (fields (om) tenant_fields) { into = tenant_into metav1 }

  abbrev pub tenant_list :
      Copier
        (Cell M L X)
        (ListAt L)
        (ResourceList U (Option (List (Resource V TenantSpec TenantStatus))))
  tenant_list = record (fields (both lm (slice tenant tenants_kind)) list_fields) {
    into = tenant_list_into metav1;
  }

  -- The deep copies of the metadata and of times.

  pub job_spec-IsDeep : IsDeep job_spec
  unfolding agent_job_spec_into
  job_spec-IsDeep = fields-IsDeep (flat roles_kind) agents_of (flat-IsDeep roles_kind)

  pub job_status-IsDeep : IsDeep tm → IsDeep job_status
  unfolding agent_job_status_into
  job_status-IsDeep t =
      fields-IsDeep (both (pointer tm) (pointer tm)) times_of
        (both-IsDeep (pointer tm) (pointer tm) (pointer-IsDeep tm t) (pointer-IsDeep tm t))

  pub job-IsDeep : IsDeep om → IsDeep tm → IsDeep job
  unfolding agent_job_into
  job-IsDeep o t = fields-IsDeep (both om (both job_spec job_status)) job_fields (
      both-IsDeep om (both job_spec job_status) o
        (both-IsDeep job_spec job_status job_spec-IsDeep (job_status-IsDeep t)))

  pub job_list-IsDeep : IsDeep om → IsDeep lm → IsDeep tm → IsDeep job_list
  unfolding agent_job_list_into
  job_list-IsDeep o l t =
      fields-IsDeep (both lm (slice job jobs_kind)) list_fields
        (both-IsDeep lm (slice job jobs_kind) l (slice-IsDeep job jobs_kind (job-IsDeep o t)))

  pub fleet_spec-IsDeep : IsDeep fleet_spec
  unfolding agent_fleet_spec_into
  fleet_spec-IsDeep = fields-IsDeep (flat strings_kind) job_refs_of (flat-IsDeep strings_kind)

  pub fleet-IsDeep : IsDeep om → IsDeep fleet
  unfolding agent_fleet_into
  fleet-IsDeep o =
      fields-IsDeep (both om fleet_spec) fleet_fields
        (both-IsDeep om fleet_spec o fleet_spec-IsDeep)

  pub fleet_list-IsDeep : IsDeep om → IsDeep lm → IsDeep fleet_list
  unfolding agent_fleet_list_into
  fleet_list-IsDeep o l =
      fields-IsDeep (both lm (slice fleet fleets_kind)) list_fields (
        both-IsDeep lm (slice fleet fleets_kind) l
          (slice-IsDeep fleet fleets_kind (fleet-IsDeep o)))

  pub tenant-IsDeep : IsDeep om → IsDeep tenant
  unfolding tenant_into
  tenant-IsDeep o = fields-IsDeep (om) tenant_fields (o)

  pub tenant_list-IsDeep : IsDeep om → IsDeep lm → IsDeep tenant_list
  unfolding tenant_list_into
  tenant_list-IsDeep o l = fields-IsDeep (both lm (slice tenant tenants_kind)) list_fields (
      both-IsDeep lm (slice tenant tenants_kind) l
        (slice-IsDeep tenant tenants_kind (tenant-IsDeep o)))
