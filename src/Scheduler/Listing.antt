-- ===== src/Scheduler/Listing.antt =====
-- core/scheduler/scheduler.go, ListActive: which jobs a tenant sees.
pub mod Unordered
use mathlib.Core.List.{Memᴰ}
use muto.Prelude.{
  String, ◌==◌, eq_iff, true, false, not, some, [], ◌∷◌, ◌≡◌, refl, arith, All, Bool-cases, inl,
  inr, sym, ap, ◌∙◌,
}
use muto.Prelude.Dict.{Dict, lookup}
use muto.Agent.{Job, terminating, is_terminal}
use muto.Scheduler.{State, JobRecord, phase_of, active_jobs, is_active_of, list_active}
use muto.Scheduler.Interleaving.{System, Reach, initial, Reach-terminating}

-- What ListActive promises of each job that it returns.
abbrev pub IsActiveOf : String → Job → Type 0
IsActiveOf tenant j = (j.tenant_id ≡ tenant) × (is_terminal j.status.phase ≡ false)

-- Every listed job is the tenant's, and neither Succeeded nor Failed.
pub list_active-All :
    {C : Type 0} (s : State C) (tenant : String) → All (IsActiveOf tenant) (list_active s tenant)
unfolding list_active
list_active-All s tenant = walk s.jobs
  where
    walk : (m : Dict JobRecord) → All (IsActiveOf tenant) (active_jobs tenant m)
    walk [] = tt
    walk ((id, r) ∷ m) = ground (arith, walk m, eq_iff r.job.tenant_id tenant)

active_jobs-complete :
    (tenant k : String) (m : Dict JobRecord) (r : JobRecord)
    → lookup k m ≡ some r
    → is_active_of tenant r ≡ true
    → Memᴰ r.job (active_jobs tenant m)
unfolding active_jobs lookup
active_jobs-complete tenant k [] r h e = absurd (cc)
active_jobs-complete tenant k ((id, x) ∷ m) r h e = elim (Bool-cases (id == k)) [
  | inl here ↦
      let same : x ≡ r = ground arith in
      let active : is_active_of tenant x ≡ true = ap (is_active_of tenant) same ∙ e in
      rw active (Memᴰ.head (ap (λ y. y.job) (sym same)))
  | inr there ↦
      let rest = active_jobs-complete tenant k m r (ground arith) e in
      elim (Bool-cases (is_active_of tenant x)) [
        | inl b ↦ rw b (Memᴰ.tail rest)
        | inr b ↦ rw b rest
      ]
]

-- Every job of the tenant in the map that is neither Succeeded nor Failed is listed, with its
-- present state.
pub list_active_complete :
    {C : Type 0} (s : State C) (tenant k : String) (r : JobRecord)
    → lookup k s.jobs ≡ some r
    → IsActiveOf tenant r.job
    → Memᴰ r.job (list_active s tenant)
unfolding list_active
list_active_complete s tenant k r h (owner, busy) =
    active_jobs-complete tenant k s.jobs r h
      (rw ((eq_iff r.job.tenant_id tenant).1 owner) (ap not busy))

-- A job that is Terminating in a reachable state is listed as active in every state reached from
-- there.
pub list_active-terminating :
    {C : Type 0} {x y : System C} (id : String) (r : JobRecord)
    → Reach initial x
    → Reach x y
    → lookup id x.state.jobs ≡ some r
    → phase_of r ≡ terminating
    → Memᴰ r.job (list_active y.state r.job.tenant_id)
list_active-terminating {y} id r before after h e =
    list_active_complete y.state r.job.tenant_id id r (Reach-terminating id r before after h e)
      (refl, ap is_terminal e)
