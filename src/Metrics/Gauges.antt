-- ===== src/Metrics/Gauges.antt =====
-- platform/k8s/metrics/metrics.go: the two gauges of a tenant.
use muto.Prelude.{
  ◌≡◌, String, ◌==◌, Bool, true, false, List, [], ◌∷◌, ap, sym, ◌∙◌, some, none, Option, Bool-cases,
  inl, inr, arith, if◌then◌else◌,
}
use muto.Prelude.Int.{ℤ, pos, ◌+ℤ◌, ◌-ℤ◌, +ℤ_assoc, +ℤ_zero}
use muto.Metrics.{
  Instrument, agents_running, job_queue_depth, Measurement, add, observe, Meters, Call, reconciled,
  started, finished, take_call, take_calls, observe_call, job_started, job_finished,
  record_reconcile, record_job_started, record_job_finished, minus, one,
}

abbrev pub is_depth : Instrument → Bool
is_depth job_queue_depth = true
is_depth _ = false

abbrev pub is_agents : Instrument → Bool
is_agents agents_running = true
is_agents _ = false

abbrev is_of : String → List String → Bool
is_of tenant [] = false
is_of tenant (label ∷ []) = label == tenant
is_of tenant (label ∷ next ∷ rest) = false

-- The value of a gauge of the tenant: what was added to it.
abbrev pub gauge : (Instrument → Bool) → String → List Measurement → ℤ
gauge which tenant [] = pos 0
gauge which tenant (add i labels n ∷ rest) =
    let value = gauge which tenant rest in
    if which i then (if is_of tenant labels then n +ℤ value else value) else value
gauge which tenant (observe i labels n ∷ rest) = gauge which tenant rest

-- The tenant's jobs that started, less those that finished.
abbrev pub depth_change : String → Call → ℤ
depth_change tenant (reconciled r status duration) = pos 0
depth_change tenant (started t n) = if t == tenant then one else pos 0
depth_change tenant (finished now t status at n) = if t == tenant then minus one else pos 0

-- The same of their agents.
abbrev pub agents_change : String → Call → ℤ
agents_change tenant (reconciled r status duration) = pos 0
agents_change tenant (started t n) = if t == tenant then n else pos 0
agents_change tenant (finished now t status at n) = if t == tenant then minus n else pos 0

abbrev pub sum : (Call → ℤ) → List Call → ℤ
sum change [] = pos 0
sum change (c ∷ cs) = change c +ℤ sum change cs

pub zero_+ℤ : (a : ℤ) → pos 0 +ℤ a ≡ a
unfolding ◌+ℤ◌
zero_+ℤ a = ground arith

+ℤ_comm : (a b : ℤ) → a +ℤ b ≡ b +ℤ a
unfolding ◌+ℤ◌
+ℤ_comm a b = ground arith

take_call-gauges :
    (tenant : String) (c : Call) (m : Meters)
    → (gauge is_depth tenant (take_call c m).prometheus
        ≡ depth_change tenant c +ℤ gauge is_depth tenant m.prometheus)
      × (gauge is_agents tenant (take_call c m).prometheus
          ≡ agents_change tenant c +ℤ gauge is_agents tenant m.prometheus)
unfolding take_call observe_call job_started job_finished record_reconcile record_job_started
    record_job_finished
take_call-gauges tenant (reconciled r status duration) m = (sym (zero_+ℤ _), sym (zero_+ℤ _))
take_call-gauges tenant (started t n) m = (
  ground (arith, zero_+ℤ (gauge is_depth tenant m.prometheus)),
  ground (arith, zero_+ℤ (gauge is_agents tenant m.prometheus)),
)
take_call-gauges tenant (finished now t status none n) m = (
  ground (arith, zero_+ℤ (gauge is_depth tenant m.prometheus)),
  ground (arith, zero_+ℤ (gauge is_agents tenant m.prometheus)),
)
take_call-gauges tenant (finished now t status (some at) n) m = (
  ground (arith, zero_+ℤ (gauge is_depth tenant m.prometheus)),
  ground (arith, zero_+ℤ (gauge is_agents tenant m.prometheus)),
)

-- The steps of two calls are one sum.
pub added : (v b x y z : ℤ) → v ≡ y +ℤ z → z ≡ b +ℤ x → v ≡ (b +ℤ y) +ℤ x
added v b x y z later now =
    later ∙ ap (λ q. y +ℤ q) now ∙ sym (+ℤ_assoc y b x) ∙ ap (λ q. q +ℤ x) (+ℤ_comm y b)

-- After any sequence of calls, a tenant's queue depth has changed by its jobs that started less those
-- that finished, and its running agents by the agents of the ones less those of the others.
pub take_calls-gauges :
    (tenant : String) (cs : List Call) (m : Meters)
    → (gauge is_depth tenant (take_calls cs m).prometheus
        ≡ sum (depth_change tenant) cs +ℤ gauge is_depth tenant m.prometheus)
      × (gauge is_agents tenant (take_calls cs m).prometheus
          ≡ sum (agents_change tenant) cs +ℤ gauge is_agents tenant m.prometheus)
take_calls-gauges tenant [] m = (sym (zero_+ℤ _), sym (zero_+ℤ _))
take_calls-gauges tenant (c ∷ cs) m =
    let now = take_call-gauges tenant c m in
    let later = take_calls-gauges tenant cs (take_call c m) in
    (added _ _ _ _ _ later.0 now.0, added _ _ _ _ _ later.1 now.1)

swap : (a b x : ℤ) → a +ℤ (b +ℤ x) ≡ b +ℤ (a +ℤ x)
swap a b x = sym (+ℤ_assoc a b x) ∙ ap (λ q. q +ℤ x) (+ℤ_comm a b) ∙ +ℤ_assoc b a x

-- A change that is undone, with others in between.
undone :
    (a d s x v u y w : ℤ)
    → d +ℤ a ≡ pos 0
    → v ≡ a +ℤ x
    → u ≡ s +ℤ v
    → w ≡ d +ℤ u
    → y ≡ s +ℤ x
    → w ≡ y
undone a d s x v u y w h first between last without =
    last
    ∙ ap (λ q. d +ℤ q) (between ∙ ap (λ q. s +ℤ q) first)
    ∙ swap d s (a +ℤ x)
    ∙ ap (λ q. s +ℤ q) (sym (+ℤ_assoc d a x) ∙ ap (λ q. q +ℤ x) h ∙ zero_+ℤ x)
    ∙ sym without

minus_cancels : (n : ℤ) → minus n +ℤ n ≡ pos 0
unfolding ◌+ℤ◌ ◌-ℤ◌
minus_cancels n = ground arith

changes_cancel :
    (tenant t status : String) (n now : ℤ) (at : Option ℤ)
    → (depth_change tenant (finished now t status at n) +ℤ depth_change tenant (started t n)
        ≡ pos 0)
      × (agents_change tenant (finished now t status at n) +ℤ agents_change tenant (started t n)
          ≡ pos 0)
changes_cancel tenant t status n now at = elim (Bool-cases (t == tenant)) [
  | inl h ↦ rw h (minus_cancels one, minus_cancels n)
  | inr h ↦ rw h (+ℤ_zero _, +ℤ_zero _)
]

-- A job that finishes with the agents that it started with, whatever the reconcilers recorded in
-- between, leaves both gauges of every tenant as if it had never been.
pub take_calls-finished :
    (tenant t status : String) (n now : ℤ) (at : Option ℤ) (cs : List Call) (m : Meters)
    → (gauge is_depth tenant
          (take_call
            (finished now t status at n)
            (take_calls cs (take_call (started t n) m))).prometheus
        ≡ gauge is_depth tenant (take_calls cs m).prometheus)
      × (gauge is_agents tenant
            (take_call
              (finished now t status at n)
              (take_calls cs (take_call (started t n) m))).prometheus
          ≡ gauge is_agents tenant (take_calls cs m).prometheus)
take_calls-finished tenant t status n now at cs m =
    let m₁ = take_call (started t n) m in
    let first = take_call-gauges tenant (started t n) m in
    let between = take_calls-gauges tenant cs m₁ in
    let last = take_call-gauges tenant (finished now t status at n) (take_calls cs m₁) in
    let without = take_calls-gauges tenant cs m in
    let zero = changes_cancel tenant t status n now at in
    (
      undone _ _ _ _ _ _ _ _ zero.0 first.0 between.0 last.0 without.0,
      undone _ _ _ _ _ _ _ _ zero.1 first.1 between.1 last.1 without.1,
    )
