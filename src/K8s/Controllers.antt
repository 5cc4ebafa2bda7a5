-- ===== src/K8s/Controllers.antt =====
-- platform/k8s/reconcilers: SetupWithManager of the three reconcilers, as what it tells
-- controller-runtime to watch.
use muto.Prelude.{String, Bool, true, false, ◌||◌, Option, none, some, List, [], ◌∷◌, ◌≡◌}
use muto.K8s.Types.{AgentJob}
use muto.K8s.Objects.{Pod}

pub data Watched : Type 0 where
  tenants agent_jobs agent_fleets pods : Watched

-- ctrl.NewControllerManagedBy: For, Owns, and the span of WrapReconciler.
pub record Controller : Type 0 where
  pub primary : Watched
  pub owned : List Watched
  pub span : String

abbrev pub tenant_controller : Controller
tenant_controller = record { primary = tenants; owned = []; span = "TenantReconciler.Reconcile" }

abbrev pub agent_job_controller : Controller
agent_job_controller = record {
  primary = agent_jobs;
  owned = pods ∷ [];
  span = "AgentJobReconciler.Reconcile";
}

abbrev pub agent_fleet_controller : Controller
agent_fleet_controller = record {
  primary = agent_fleets;
  owned = [];
  span = "AgentFleetReconciler.Reconcile";
}

-- A change of an object, with its controller's kind and name, and a reconcile.Request.
pub record Event : Type 0 where
  pub kind : Watched
  pub namespace : String
  pub name : String
  pub owner : Option (String × String)

pub record Request : Type 0 where
  pub namespace : String
  pub name : String

abbrev pub is_same : Watched → Watched → Bool
is_same tenants tenants = true
is_same agent_jobs agent_jobs = true
is_same agent_fleets agent_fleets = true
is_same pods pods = true
is_same a b = false

abbrev pub is_among : Watched → List Watched → Bool
is_among k [] = false
is_among k (a ∷ rest) = is_same k a || is_among k rest

-- The kind as an owner reference names it.
abbrev pub kind_name : Watched → String
kind_name tenants = "Tenant"
kind_name agent_jobs = "AgentJob"
kind_name agent_fleets = "AgentFleet"
kind_name pods = "Pod"

-- The requests that controller-runtime queues for a controller when an object changes, and what it
-- documents of them.
pub record Queueing (requests : Controller → Event → List Request) : Type 0 where
  pub for_lem :
      (c : Controller) (e : Event)
      → is_same e.kind c.primary ≡ true
      → requests c e ≡ record { namespace = e.namespace; name = e.name } ∷ []
  pub owns_lem :
      (c : Controller) (e : Event) (name : String)
      → is_same e.kind c.primary ≡ false
      → is_among e.kind c.owned ≡ true
      → e.owner ≡ some (kind_name c.primary, name)
      → requests c e ≡ record { namespace = e.namespace; name = name } ∷ []
  pub others :
      (c : Controller) (e : Event)
      → is_same e.kind c.primary ≡ false
      → is_among e.kind c.owned ≡ false
      → requests c e ≡ []

abbrev pub job_event : AgentJob → Event
job_event j = record { kind = agent_jobs; namespace = j.namespace; name = j.name; owner = none }

abbrev pub pod_event : Pod → Event
pod_event p = record { kind = pods; namespace = p.namespace; name = p.name; owner = p.owner }
