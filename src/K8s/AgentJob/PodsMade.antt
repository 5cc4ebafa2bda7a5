-- ===== src/K8s/AgentJob/PodsMade.antt =====
-- platform/k8s/reconcilers/agentjob_reconciler.go: the pods that are there after
-- reconcilePending.
use muto.Prelude.{true, ◌⊎◌, none, some, List, [], ◌∷◌, ok, ◌≡◌}
use muto.Prelude.Int.{pos, int32, ◌+ℤ◌}
use muto.K8s.Types.{AgentJob, Tenant}
use muto.K8s.Objects.{Pod, already_exists}
use muto.K8s.Client.{Client}
use muto.K8s.PodStore.{PodStore}
use muto.K8s.AgentJob.{as_started}
use muto.K8s.AgentJob.Plan.{plan, sum_replicas, create_all}

module _ {W : Type 0} (c : Client W) (store : PodStore c) where
  open store use {standing}

  -- The calls of Create, one for each pod of a list and in its order, from a state on. Each was accepted, and
  -- at the end its pod stands, or it was answered already_exists.
  abbrev pub AllPlaced : W → W → List Pod → Type 0
  AllPlaced v end [] = Unit
  AllPlaced v end (p ∷ ps) =
      ((((c.create_pod v p).1 ≡ none) × (standing end p.namespace p.name ≡ true))
        ⊎ ((c.create_pod v p).1 ≡ some already_exists))
      × AllPlaced (c.create_pod v p).0 end ps

  -- A job that was started: its tenant was read, all its planned pods were placed, and the status that was
  -- stored says Running with the sum of its replicas.
  pub record IsStarted (w w' : W) (job : AgentJob) : Type 0 where
    pub tenant : Tenant
    pub found : (c.get_tenant w "" job.spec.tenant_ref).1 ≡ ok tenant
    pub pods :
        AllPlaced (c.get_tenant w "" job.spec.tenant_ref).0 w' (plan job tenant job.spec.agents)
    pub stored :
        let before =
          (create_all c
            (c.get_tenant w "" job.spec.tenant_ref).0
            (plan job tenant job.spec.agents)).0 in
        (c.update_job_status before
          (as_started (c.now before) (int32 (pos 0 +ℤ sum_replicas job.spec.agents)) job)).1
        ≡ none
