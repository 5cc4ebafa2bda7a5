-- ===== src/Tools.antt =====
-- mcp/tools/tools.go: the handlers behind the MCP tools, over any Scheduler.
pub mod Served
pub mod Stopped
use muto.Prelude.{ℕ, String, ◌<>◌, Option, List, [], ◌∷◌, Result, ok, err, length}
use muto.Prelude.Int.{ℤ}
use muto.Agent.{AgentRole, Status, Job, TriggerType, zero_status}
use muto.Tenant.{topic_prefix}

-- core/scheduler/scheduler.go, the interface Scheduler; `S` is its state and the platform's, `F`
-- its errors.
pub record Scheduler (S F : Type 0) : Type 0 where
  pub schedule : S → Job → S × Option F
  pub cancel : S → String → S × Option F
  pub status : S → String → S × Result F Status
  pub list_active : S → String → S × Result F (List Job)

-- The errors: passed on as they are, or wrapped.
pub data Failure (F : Type 0) : Type 0 where
  get_status list_failed : F → Failure F

pub record TenantInfo : Type 0 where
  pub tenant_id : String
  pub active_jobs : ℕ
  pub note : String

worker : String → AgentRole
worker image = record { role = "worker"; image = image; command = ""; max_replicas = ℤ.pos 1 }

unfoldable pub agent_job : String → String → String → String → ℤ → Job
unfolding worker
agent_job job_id tenant_id image trigger_source ttl = record {
  id = job_id;
  tenant_id = tenant_id;
  spec = record {
    tenant_ref = tenant_id;
    trigger = record { type = TriggerType.event; source = trigger_source };
    agents = worker image ∷ [];
    message_bus = record { topic = topic_prefix tenant_id <> job_id };
    ttl_after_completion = ttl;
  };
  status = zero_status;
}

module _ {F : Type 0} where
  status_answer : Result F Status → Result (Failure F) Status
  status_answer (err e) = err (get_status e)
  status_answer (ok st) = ok st

  tenant_info : String → Result F (List Job) → Result (Failure F) TenantInfo
  tenant_info tenant_id (err e) = err (list_failed e)
  tenant_info tenant_id (ok jobs) = ok (record {
    tenant_id = tenant_id;
    active_jobs = length jobs;
    note =
        "For isolation tier and bus config, check the Tenant CR: kubectl get tenant " <> tenant_id;
  })

module _ {S F : Type 0} (sched : Scheduler S F) where
  unfoldable pub schedule_agent_job : S → String → String → String → String → ℤ → S × Option F
  schedule_agent_job s job_id tenant_id image trigger_source ttl =
      sched.schedule s (agent_job job_id tenant_id image trigger_source ttl)

  unfoldable pub get_job_status : S → String → S × Result (Failure F) Status
  unfolding status_answer
  get_job_status s job_id = let (s', answer) = sched.status s job_id in (s', status_answer answer)

  unfoldable pub cancel_job : S → String → S × Option F
  cancel_job s job_id = sched.cancel s job_id

  unfoldable pub list_active_agents : S → String → S × Result F (List Job)
  list_active_agents s tenant_id = sched.list_active s tenant_id

  unfoldable pub describe_tenant : S → String → S × Result (Failure F) TenantInfo
  unfolding tenant_info
  describe_tenant s tenant_id =
      let (s', answer) = sched.list_active s tenant_id in (s', tenant_info tenant_id answer)
