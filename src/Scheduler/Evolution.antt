-- ===== src/Scheduler/Evolution.antt =====
-- core/scheduler/scheduler.go: how the jobs in the map may change over the calls.
use muto.Prelude.{
  ltb, ℕ, String, ◌==◌, eq_iff, false, none, some, List, ◌≡◌, refl, ◌⊎◌, inl, inr, arith, sym, ◌∙◌,
  subst, Bool-cases,
}
use muto.Prelude.Dict.{Dict, lookup, insert, lookup-insert}
use muto.Agent.{Phase, running, succeeded, failed, terminating, Job}
use muto.Scheduler.StateMachine.{
  ◌⟶◌, ◌⟶*◌, stay, next, stop, clean_succeeded, clean_failed, succeed, fail, start, ⟶*-trans,
}
use muto.Scheduler.{State, JobRecord, phase_of, with_phase, enroll, commit, commit_cancel}
use muto.Scheduler.Watch.{Tally, verdict, is_settled, finish}
use muto.Scheduler.Registry.{commit_cases, commit_cancel_cases, finish_cases}

-- The phases of a registered job: it has left Pending.
abbrev pub IsLive : Phase → Type 0
IsLive p = (p ≡ running) ⊎ (p ≡ succeeded) ⊎ (p ≡ failed) ⊎ (p ≡ terminating)

-- What a record may become: its phase moves along the life cycle, and nothing else changes.
pub record Evolves (r r' : JobRecord) : Type 0 where
  pub phases : phase_of r ⟶* phase_of r'
  pub rest : r' ≡ with_phase (phase_of r') r

pub Evolves-refl : (r : JobRecord) → Evolves r r
Evolves-refl r = record { phases = stay; rest = refl }

-- A record in the map that moves along the life cycle: every record evolves.
insert-Evolves :
    (m : Dict JobRecord) (id k : String) (r₀ : JobRecord) (q : Phase) {r : JobRecord}
    → lookup id m ≡ some r₀
    → phase_of r₀ ⟶* q
    → lookup k m ≡ some r
    → (r' : JobRecord) × (lookup k (insert id (with_phase q r₀) m) ≡ some r') × Evolves r r'
insert-Evolves m id k r₀ q {r} h p e = elim (Bool-cases (id == k)) [
  | inl same ↦ (
    with_phase q r₀,
    lookup-insert id k (with_phase q r₀) m ∙ rw same,
    subst (λ x. Evolves x (with_phase q r₀)) (ground (arith, eq_iff id k))
        (record { phases = p; rest = refl }),
  )
  | inr other ↦ (r, lookup-insert id k (with_phase q r₀) m ∙ rw other e, Evolves-refl r)
]

lookup-insert_absent :
    (m : Dict JobRecord) (id k : String) (r₀ r₁ : JobRecord)
    → lookup id m ≡ some r₀
    → lookup k m ≡ none
    → lookup k (insert id r₁ m) ≡ none
lookup-insert_absent m id k r₀ r₁ h e = ground (arith, eq_iff id k, lookup-insert id k r₁ m)

-- What a job in the map looks like: it stands under its own id, and has left Pending.
pub record IsRegistered (k : String) (r : JobRecord) : Type 0 where
  pub key : r.job.id ≡ k
  pub live : IsLive (phase_of r)

abbrev pub Registered : Dict JobRecord → Type 0
Registered m = (k : String) (r : JobRecord) → lookup k m ≡ some r → IsRegistered k r

-- Once a record is in a map it stays in the next one, and evolves.
abbrev pub Persists : Dict JobRecord → Dict JobRecord → Type 0
Persists m n =
    (k : String) (r : JobRecord)
    → lookup k m ≡ some r
    → (r' : JobRecord) × (lookup k n ≡ some r') × Evolves r r'

pub Evolves-trans : {r r' r'' : JobRecord} → Evolves r r' → Evolves r' r'' → Evolves r r''
Evolves-trans v w = record {
  phases = ⟶*-trans v.phases w.phases;
  rest = ground (arith, v.rest, w.rest);
}

pub Persists-refl : (m : Dict JobRecord) → Persists m m
Persists-refl m k r h = (r, h, Evolves-refl r)

IsLive-⟶* : {p q : Phase} → p ⟶* q → IsLive p → IsLive q
IsLive-⟶* stay h = h
IsLive-⟶* (next s e) h = IsLive-⟶ e (IsLive-⟶* s h)
  where
    IsLive-⟶ : {p q : Phase} → p ⟶ q → IsLive p → IsLive q
    IsLive-⟶ start h = inl refl
    IsLive-⟶ succeed h = ground arith
    IsLive-⟶ fail h = ground arith
    IsLive-⟶ stop h = ground arith
    IsLive-⟶ clean_succeeded h = ground arith
    IsLive-⟶ clean_failed h = ground arith

insert-Persists :
    (m : Dict JobRecord) (id : String) (r₀ : JobRecord) (q : Phase)
    → lookup id m ≡ some r₀
    → phase_of r₀ ⟶* q
    → Persists m (insert id (with_phase q r₀) m)
insert-Persists m id r₀ q h p k r e = insert-Evolves m id k r₀ q h p e

-- A new record under its own id, in Running, keeps the map registered.
insert-Registered :
    (m : Dict JobRecord) (id : String) (r₀ : JobRecord)
    → IsRegistered id r₀
    → Registered m
    → Registered (insert id r₀ m)
insert-Registered m id r₀ g reg k r e = elim (Bool-cases (id == k)) [
  | inl same ↦
      subst (IsRegistered k) (ground (arith, lookup-insert id k r₀ m))
        (subst (λ j. IsRegistered j r₀) ((eq_iff id k).0 same) g)
  | inr other ↦ reg k r (sym (lookup-insert id k r₀ m ∙ rw other) ∙ e)
]

module _ {C : Type 0} (s : State C) where
  pub commit-Persists :
      (job : Job) (ids : List String) (ctx : ℕ) (chans : List C)
      → Persists s.jobs (commit s job ids ctx chans).0.jobs
  commit-Persists job ids ctx chans = elim (commit_cases s job ids ctx chans) [
    | inl (e, h) ↦ rw h (Persists-refl s.jobs)
    | inr (free, _, _, h) ↦ rw h (λ k r e. (
      r,
      lookup-insert job.id k (enroll job ids ctx running) s.jobs ∙ ground (arith, eq_iff job.id k),
      Evolves-refl r,
    ))
  ]

  pub commit-Registered :
      (job : Job) (ids : List String) (ctx : ℕ) (chans : List C)
      → Registered s.jobs
      → Registered (commit s job ids ctx chans).0.jobs
  commit-Registered job ids ctx chans reg = elim (commit_cases s job ids ctx chans) [
    | inl (e, h) ↦ rw h reg
    | inr (free, _, _, h) ↦ rw h (
        insert-Registered s.jobs job.id (enroll job ids ctx running)
          (record { key = refl; live = inl refl }) reg)
  ]

  pub commit_cancel-Persists :
      (id : String) (ctx : ℕ) → Persists s.jobs (commit_cancel s id ctx).0.jobs
  commit_cancel-Persists id ctx = elim (commit_cancel_cases s id ctx) [
    | inl h ↦ rw h (Persists-refl s.jobs)
    | inr (r, e, edge, h) ↦ rw h (insert-Persists s.jobs id r terminating e (next stay edge))
  ]

  pub commit_cancel-Registered :
      (id : String) (ctx : ℕ) → Registered s.jobs → Registered (commit_cancel s id ctx).0.jobs
  commit_cancel-Registered id ctx reg = elim (commit_cancel_cases s id ctx) [
    | inl h ↦ rw h reg
    | inr (r, e, edge, h) ↦ rw h (
        insert-Registered s.jobs id (with_phase terminating r)
          (record { key = (reg id r e).key; live = ground arith }) reg)
  ]

  -- A registered job without a verdict is running.
  running_of : (p : Phase) → IsLive p → is_settled p ≡ false → p ≡ running
  running_of p h e = ground arith

  verdict-edge : (t : Tally) (p : Phase) → p ≡ running → p ⟶ verdict t
  verdict-edge t p e = elim (Bool-cases (ltb 0 t.failed)) [
    | inl b ↦ rw (e, b) fail
    | inr b ↦ rw (e, b) succeed
  ]

  pub finish-Persists :
      (id : String) (t : Tally) → Registered s.jobs → Persists s.jobs (finish s id t).jobs
  finish-Persists id t reg = elim (finish_cases s id t) [
    | inl h ↦ rw h (Persists-refl s.jobs)
    | inr (r, e, open_phase, h) ↦ rw h (
        insert-Persists s.jobs id r (verdict t) e (
          next stay
            (verdict-edge t (phase_of r) (running_of (phase_of r) (reg id r e).live open_phase))))
  ]

  pub finish-Registered :
      (id : String) (t : Tally) → Registered s.jobs → Registered (finish s id t).jobs
  finish-Registered id t reg = elim (finish_cases s id t) [
    | inl h ↦ rw h reg
    | inr (r, e, open_phase, h) ↦ rw h (
        insert-Registered s.jobs id (with_phase (verdict t) r)
          (record { key = (reg id r e).key; live = ground arith }) reg)
  ]
