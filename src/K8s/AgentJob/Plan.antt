-- ===== src/K8s/AgentJob/Plan.antt =====
-- platform/k8s/reconcilers/agentjob_reconciler.go, reconcilePending: the two nested loops create the
-- pods of one flat plan, in its order.
use muto.Prelude.{
  ℕ, zero, suc, Option, none, some, List, [], ◌∷◌, ◌++◌, Result, ok, err, ◌≡◌, refl, arith, length,
  length-append, All, if◌then◌else◌, ap,
}
use muto.Prelude.Int.{ℤ, pos, pos_part, ◌+ℤ◌, +ℤ_assoc, +ℤ_zero, ◌≤ℤ◌}
use muto.K8s.Types.{AgentJob, AgentRoleSpec, Tenant}
use muto.K8s.Objects.{Pod}
use muto.K8s.Client.{Client}
use muto.K8s.Answer.{Error, create_pod_failed, is_already_exists}
use muto.K8s.AgentJob.Pods.{replicas_of, build_pod}
use muto.K8s.AgentJob.{create_replicas, create_roles}

-- The pods of one role from index `i` on, and of all roles.
abbrev pub plan_role : AgentJob → AgentRoleSpec → Tenant → ℕ → ℕ → List Pod
plan_role job role tenant zero i = []
plan_role job role tenant (suc left) i =
    build_pod job role tenant i ∷ plan_role job role tenant left (suc i)

abbrev pub plan : AgentJob → Tenant → List AgentRoleSpec → List Pod
plan job tenant [] = []
plan job tenant (role ∷ roles) =
    plan_role job role tenant (pos_part (replicas_of role)) 0 ++ plan job tenant roles

abbrev pub sum_replicas : List AgentRoleSpec → ℤ
sum_replicas [] = pos 0
sum_replicas (role ∷ roles) = replicas_of role +ℤ sum_replicas roles

module _ {W : Type 0} (c : Client W) where
  -- Create each pod; one that exists already is fine, any other error ends the walk.
  unfoldable pub create_all : W → List Pod → W × Option Error
  create_all w [] = (w, none)
  create_all w (p ∷ ps) =
      let (w', failure) = c.create_pod w p in
      let rest = create_all w' ps in
      elim failure [
        | none ↦ rest
        | some e ↦ if is_already_exists e then rest else (w', some (create_pod_failed e))
      ]

  abbrev pub and_then : W × Option Error → (W → W × Option Error) → W × Option Error
  and_then (w, none) k = k w
  and_then (w, some e) k = (w, some e)

  create_all-append :
      (w : W) (ps qs : List Pod)
      → create_all w (ps ++ qs) ≡ and_then (create_all w ps) (λ v. create_all v qs)
  unfolding create_all
  create_all-append w [] qs = refl
  create_all-append w (p ∷ ps) qs = ground (arith, create_all-append (c.create_pod w p).0 ps qs)

  create_replicas-plan :
      (w : W) (job : AgentJob) (role : AgentRoleSpec) (tenant : Tenant) (left i : ℕ)
      → create_replicas c w job role tenant left i ≡ create_all w (plan_role job role tenant left i)
  unfolding create_all create_replicas
  create_replicas-plan w job role tenant zero i = refl
  create_replicas-plan w job role tenant (suc left) i = ground (
    arith,
    create_replicas-plan (c.create_pod w (build_pod job role tenant i)).0 job role tenant left
        (suc i),
  )

  abbrev pub totalled : ℤ → W × Option Error → W × Result Error ℤ
  totalled total (w, none) = (w, ok total)
  totalled total (w, some e) = (w, err e)

  -- The loops of reconcilePending make the same calls in the same order as one walk over the plan,
  -- end with the same error, and without one return the sum of all replicas.
  pub create_roles-plan :
      (w : W) (job : AgentJob) (tenant : Tenant) (total : ℤ) (roles : List AgentRoleSpec)
      → create_roles c w job tenant total roles
        ≡ totalled (total +ℤ sum_replicas roles) (create_all w (plan job tenant roles))
  unfolding create_roles create_all
  create_roles-plan w job tenant total [] = rw +ℤ_zero
  create_roles-plan w job tenant total (role ∷ roles) =
      let left = pos_part (replicas_of role) in
      let here = create_all w (plan_role job role tenant left 0) in
      ground (
        arith,
        create_replicas-plan w job role tenant left 0,
        create_all-append w (plan_role job role tenant left 0) (plan job tenant roles),
        create_roles-plan here.0 job tenant (total +ℤ replicas_of role) roles,
        +ℤ_assoc total (replicas_of role) (sum_replicas roles),
      )

length-plan_role :
    (job : AgentJob) (role : AgentRoleSpec) (tenant : Tenant) (left i : ℕ)
    → length (plan_role job role tenant left i) ≡ left
length-plan_role job role tenant zero i = refl
length-plan_role job role tenant (suc left) i =
    ap suc (length-plan_role job role tenant left (suc i))

-- A MaxReplicas that the CRD's schema admits, or the unset 0.
abbrev pub IsCount : AgentRoleSpec → Type 0
IsCount role = pos 0 ≤ℤ role.max_replicas

replicas_of-pos :
    (role : AgentRoleSpec) → IsCount role → replicas_of role ≡ pos (pos_part (replicas_of role))
unfolding replicas_of
replicas_of-pos role h = ground arith

-- When no MaxReplicas is negative, the total that becomes ActiveAgents is the number of planned pods.
pub sum_replicas-length :
    (job : AgentJob) (tenant : Tenant) (roles : List AgentRoleSpec)
    → All IsCount roles
    → sum_replicas roles ≡ pos (length (plan job tenant roles))
unfolding ◌+ℤ◌
sum_replicas-length job tenant [] h = refl
sum_replicas-length job tenant (role ∷ roles) h = ground (
  arith,
  replicas_of-pos role h.0,
  sum_replicas-length job tenant roles h.1,
  length-append (plan_role job role tenant (pos_part (replicas_of role)) 0) (plan job tenant roles),
  length-plan_role job role tenant (pos_part (replicas_of role)) 0,
)
