-- ===== src/Examples/Fixtures.antt =====
-- A tenant, a job and a pod, and clusters that hold them.
use muto.Prelude.{String, true, false, Option, none, some, List, [], ◌∷◌}
use muto.Prelude.Int.{ℤ, pos}
use muto.Agent.{Phase, unset}
use muto.K8s.Types.{AgentJob, AgentRoleSpec, Tenant}
use muto.K8s.Objects.{Pod, PodPhase}
use muto.Agent.{terminating}
use muto.Examples.Cluster.{Cluster}

abbrev pub role : String → ℤ → AgentRoleSpec
role name n = record { role = name; image = "img"; command = ""; max_replicas = n }

abbrev pub roles : List AgentRoleSpec
roles = role "reader" (pos 2) ∷ role "writer" (pos 0) ∷ []

abbrev pub job_in : Phase → Option ℤ → AgentJob
job_in p completed_at = record {
  name = "job-1";
  namespace = "acme";
  spec = record {
    tenant_ref = "acme";
    trigger = record { type = "Event"; source = "" };
    agents = roles;
    message_bus = record { topic = "" };
    ttl_after_completion = pos 60;
  };
  status = record {
    phase = p;
    active_agents = pos 0;
    started_at = none;
    completed_at = completed_at;
  };
}

abbrev pub tenant : Tenant
tenant = record {
  name = "acme";
  deleting = false;
  finalizers = [];
  spec = record {
    namespace = "acme";
    isolation_tier = "shared";
    message_bus = record { type = "kafka"; dedicated = false };
  };
  status = record { ready = true };
}

abbrev pub with_job : AgentJob → Cluster
with_job j = record {
  clock = pos 100000000000;
  pods = [];
  job = some j;
  tenant = some tenant;
  fleet = none;
}

abbrev pub fresh : Cluster
fresh = with_job (job_in unset none)

-- A job that is taken down, with a pod.
abbrev pub ending : AgentJob
ending = job_in terminating none

abbrev pub pod : Pod
pod = record {
  name = "job-1-writer";
  namespace = "acme";
  labels = ("muto.io/job", "job-1") ∷ [];
  owner = none;
  containers = [];
  phase = PodPhase.other "Running";
}

abbrev pub with_pod : Cluster
with_pod = record (with_job ending) { pods = pod ∷ [] }
