-- ===== src/K8s/DeepCopy/Kinds.antt =====
-- The arrays of each type of platform/k8s/types/v1alpha1, as cells of the heap.
use muto.Prelude.{String, List, [], refl}
use muto.K8s.Types.{
  TriggerSpec, AgentRoleSpec, JobBusSpec, AgentFleetStatus, TenantBusSpec, TenantSpec, TenantStatus,
}
use muto.K8s.Memory.{Kind}
use muto.K8s.DeepCopy.Structs.{
  Cell, JobSpec, JobStatus, JobAt, FleetSpec, Fleet, TenantAt, ListAt, strings, triggers, roles,
  job_buses, job_specs, job_statuses, jobs, job_lists, fleet_specs, fleet_statuses, fleets,
  fleet_lists, tenant_buses, tenant_specs, tenant_statuses, tenants, tenant_lists,
}

module _ {M L X : Type 0} where
  abbrev pub strings_in : Cell M L X → List (String)
  strings_in (strings xs) = xs
  strings_in c = []

  abbrev pub strings_kind : Kind (Cell M L X) (String)
  strings_kind = record {
    to_cell = strings;
    from_cell = strings_in;
    from_cell-to_cell = λ xs. refl;
  }

  abbrev pub triggers_in : Cell M L X → List (TriggerSpec)
  triggers_in (triggers xs) = xs
  triggers_in c = []

  abbrev pub triggers_kind : Kind (Cell M L X) (TriggerSpec)
  triggers_kind = record {
    to_cell = triggers;
    from_cell = triggers_in;
    from_cell-to_cell = λ xs. refl;
  }

  abbrev pub roles_in : Cell M L X → List (AgentRoleSpec)
  roles_in (roles xs) = xs
  roles_in c = []

  abbrev pub roles_kind : Kind (Cell M L X) (AgentRoleSpec)
  roles_kind = record { to_cell = roles; from_cell = roles_in; from_cell-to_cell = λ xs. refl }

  abbrev pub job_buses_in : Cell M L X → List (JobBusSpec)
  job_buses_in (job_buses xs) = xs
  job_buses_in c = []

  abbrev pub job_buses_kind : Kind (Cell M L X) (JobBusSpec)
  job_buses_kind = record {
    to_cell = job_buses;
    from_cell = job_buses_in;
    from_cell-to_cell = λ xs. refl;
  }

  abbrev pub job_specs_in : Cell M L X → List (JobSpec)
  job_specs_in (job_specs xs) = xs
  job_specs_in c = []

  abbrev pub job_specs_kind : Kind (Cell M L X) (JobSpec)
  job_specs_kind = record {
    to_cell = job_specs;
    from_cell = job_specs_in;
    from_cell-to_cell = λ xs. refl;
  }

  abbrev pub job_statuses_in : Cell M L X → List (JobStatus)
  job_statuses_in (job_statuses xs) = xs
  job_statuses_in c = []

  abbrev pub job_statuses_kind : Kind (Cell M L X) (JobStatus)
  job_statuses_kind = record {
    to_cell = job_statuses;
    from_cell = job_statuses_in;
    from_cell-to_cell = λ xs. refl;
  }

  abbrev pub jobs_in : Cell M L X → List (JobAt M)
  jobs_in (jobs xs) = xs
  jobs_in c = []

  abbrev pub jobs_kind : Kind (Cell M L X) (JobAt M)
  jobs_kind = record { to_cell = jobs; from_cell = jobs_in; from_cell-to_cell = λ xs. refl }

  abbrev pub job_lists_in : Cell M L X → List (ListAt L)
  job_lists_in (job_lists xs) = xs
  job_lists_in c = []

  abbrev pub job_lists_kind : Kind (Cell M L X) (ListAt L)
  job_lists_kind = record {
    to_cell = job_lists;
    from_cell = job_lists_in;
    from_cell-to_cell = λ xs. refl;
  }

  abbrev pub fleet_specs_in : Cell M L X → List (FleetSpec)
  fleet_specs_in (fleet_specs xs) = xs
  fleet_specs_in c = []

  abbrev pub fleet_specs_kind : Kind (Cell M L X) (FleetSpec)
  fleet_specs_kind = record {
    to_cell = fleet_specs;
    from_cell = fleet_specs_in;
    from_cell-to_cell = λ xs. refl;
  }

  abbrev pub fleet_statuses_in : Cell M L X → List (AgentFleetStatus)
  fleet_statuses_in (fleet_statuses xs) = xs
  fleet_statuses_in c = []

  abbrev pub fleet_statuses_kind : Kind (Cell M L X) (AgentFleetStatus)
  fleet_statuses_kind = record {
    to_cell = fleet_statuses;
    from_cell = fleet_statuses_in;
    from_cell-to_cell = λ xs. refl;
  }

  abbrev pub fleets_in : Cell M L X → List (Fleet M)
  fleets_in (fleets xs) = xs
  fleets_in c = []

  abbrev pub fleets_kind : Kind (Cell M L X) (Fleet M)
  fleets_kind = record { to_cell = fleets; from_cell = fleets_in; from_cell-to_cell = λ xs. refl }

  abbrev pub fleet_lists_in : Cell M L X → List (ListAt L)
  fleet_lists_in (fleet_lists xs) = xs
  fleet_lists_in c = []

  abbrev pub fleet_lists_kind : Kind (Cell M L X) (ListAt L)
  fleet_lists_kind = record {
    to_cell = fleet_lists;
    from_cell = fleet_lists_in;
    from_cell-to_cell = λ xs. refl;
  }

  abbrev pub tenant_buses_in : Cell M L X → List (TenantBusSpec)
  tenant_buses_in (tenant_buses xs) = xs
  tenant_buses_in c = []

  abbrev pub tenant_buses_kind : Kind (Cell M L X) (TenantBusSpec)
  tenant_buses_kind = record {
    to_cell = tenant_buses;
    from_cell = tenant_buses_in;
    from_cell-to_cell = λ xs. refl;
  }

  abbrev pub tenant_specs_in : Cell M L X → List (TenantSpec)
  tenant_specs_in (tenant_specs xs) = xs
  tenant_specs_in c = []

  abbrev pub tenant_specs_kind : Kind (Cell M L X) (TenantSpec)
  tenant_specs_kind = record {
    to_cell = tenant_specs;
    from_cell = tenant_specs_in;
    from_cell-to_cell = λ xs. refl;
  }

  abbrev pub tenant_statuses_in : Cell M L X → List (TenantStatus)
  tenant_statuses_in (tenant_statuses xs) = xs
  tenant_statuses_in c = []

  abbrev pub tenant_statuses_kind : Kind (Cell M L X) (TenantStatus)
  tenant_statuses_kind = record {
    to_cell = tenant_statuses;
    from_cell = tenant_statuses_in;
    from_cell-to_cell = λ xs. refl;
  }

  abbrev pub tenants_in : Cell M L X → List (TenantAt M)
  tenants_in (tenants xs) = xs
  tenants_in c = []

  abbrev pub tenants_kind : Kind (Cell M L X) (TenantAt M)
  tenants_kind = record {
    to_cell = tenants;
    from_cell = tenants_in;
    from_cell-to_cell = λ xs. refl;
  }

  abbrev pub tenant_lists_in : Cell M L X → List (ListAt L)
  tenant_lists_in (tenant_lists xs) = xs
  tenant_lists_in c = []

  abbrev pub tenant_lists_kind : Kind (Cell M L X) (ListAt L)
  tenant_lists_kind = record {
    to_cell = tenant_lists;
    from_cell = tenant_lists_in;
    from_cell-to_cell = λ xs. refl;
  }
