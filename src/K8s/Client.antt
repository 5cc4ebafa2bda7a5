-- ===== src/K8s/Client.antt =====
-- The client of the API server (sigs.k8s.io/controller-runtime), as a parameter: `W` is the
-- cluster's state, which every call may find changed by others. `now` reads the clock, in
-- nanoseconds. A name is looked up in a namespace, "" for a resource of the cluster.
-- The last three stand for platform/k8s/metrics, whose counters are part of `W` here: a job's start
-- (tenant, agents), its end (tenant, status, start, agents) and a reconcile call (reconciler,
-- status).
use muto.Prelude.{String, List, Option, Result}
use muto.Prelude.Int.{ℤ}
use muto.K8s.Types.{AgentJob, AgentFleet, Tenant}
use muto.K8s.Objects.{Pod, ApiError}

pub record Client (W : Type 0) : Type 0 where
  pub now : W → ℤ
  pub get_pod : W → String → String → W × Result ApiError Pod
  pub create_pod : W → Pod → W × Option ApiError
  pub delete_pod : W → String → String → W × Option ApiError
  pub list_pods : W → String → String → String → W × Result ApiError (List Pod)
  pub get_tenant : W → String → String → W × Result ApiError Tenant
  pub get_job : W → String → String → W × Result ApiError AgentJob
  pub update_job_status : W → AgentJob → W × Option ApiError
  pub delete_job : W → String → String → W × Option ApiError
  pub get_fleet : W → String → String → W × Result ApiError AgentFleet
  pub update_fleet_status : W → AgentFleet → W × Option ApiError
  pub job_started : W → String → ℤ → W
  pub job_finished : W → String → String → Option ℤ → ℤ → W
  pub observe : W → String → String → W
