-- ===== src/Tracing.antt =====
-- core/tracing/tracing.go and scheduler.go, and platform/k8s/tracing/tracing.go: spans around calls.
pub mod Transparent
use muto.Prelude.{ℕ, String, Option, none, some, List, [], ◌∷◌, Result, ok, err}
use muto.Scheduler.Adapter.{PlatformAdapter}
use muto.Tools.{Scheduler}

-- OpenTelemetry's status of a span, `codes.Unset` or `codes.Error` with a description.
pub data SpanStatus : Type 0 where
  unset_status : SpanStatus
  error_status : String → SpanStatus

-- A span that has ended: what Start, RecordError and SetStatus were given.
pub record Span : Type 0 where
  pub name : String
  pub recorded : List String
  pub status : SpanStatus

-- The state that the wrapped calls work on, and the ended spans, the last one first.
pub record Traced (S : Type 0) : Type 0 where
  pub inner : S
  pub spans : List Span

abbrev pub error_of : {E A : Type 0} → Result E A → Option E
error_of (ok a) = none
error_of (err e) = some e

abbrev pub itself : {E : Type 0} → Option E → Option E
itself e = e

-- `text` is `err.Error()`.
module _ {E : Type 0} (text : E → String) where
  unfoldable pub ended_span : String → Option E → Span
  ended_span name none = record { name = name; recorded = []; status = unset_status }
  ended_span name (some e) = record {
    name = name;
    recorded = text e ∷ [];
    status = error_status (text e);
  }

  -- `failure` gives the error among the results of the call.
  unfoldable pub wrap :
      {S A : Type 0} → (A → Option E) → String → (S → S × A) → Traced S → Traced S × A
  unfolding ended_span
  wrap failure name fn t =
      let (s, answer) = fn t.inner in
      (record { inner = s; spans = ended_span name (failure answer) ∷ t.spans }, answer)

  unfoldable pub wrap_err :
      {S : Type 0} → String → (S → S × Option E) → Traced S → Traced S × Option E
  unfolding wrap
  wrap_err name fn t = wrap itself name fn t

  unfoldable pub wrap_platform_adapter :
      {W C : Type 0} → PlatformAdapter W E C → PlatformAdapter (Traced W) E C
  unfolding wrap wrap_err
  wrap_platform_adapter a = record {
    spawn_agent =
        λ t spec. wrap error_of "PlatformAdapter.SpawnAgent" (λ w. a.spawn_agent w spec) t;
    terminate_agent =
        λ t id. wrap_err "PlatformAdapter.TerminateAgent" (λ w. a.terminate_agent w id) t;
    watch_agent =
        λ t ctx id. wrap error_of "PlatformAdapter.WatchAgent" (λ w. a.watch_agent w ctx id) t;
  }

  unfoldable pub wrap_scheduler : {S : Type 0} → Scheduler S E → Scheduler (Traced S) E
  unfolding wrap wrap_err
  wrap_scheduler sched = record {
    schedule = λ t job. wrap_err "Scheduler.Schedule" (λ s. sched.schedule s job) t;
    cancel = λ t id. wrap_err "Scheduler.Cancel" (λ s. sched.cancel s id) t;
    status = λ t id. wrap error_of "Scheduler.Status" (λ s. sched.status s id) t;
    list_active =
        λ t tenant. wrap error_of "Scheduler.ListActive" (λ s. sched.list_active s tenant) t;
  }

  -- `inner.Reconcile(ctx, req)` returns `(reconcile.Result, error)`.
  unfoldable pub wrap_reconciler :
      {S Q R : Type 0}
      → String
      → (S → Q → S × R × Option E)
      → Traced S
      → Q
      → Traced S × R × Option E
  unfolding wrap
  wrap_reconciler {S} {Q} {R} name inner t req =
      let (t', answer) =
        wrap {A = R × Option E} (λ x. x.1) name (λ s. let (s', r, e) = inner s req in (s', (r, e)))
          t in
      (t', answer.0, answer.1)
