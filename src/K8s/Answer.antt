-- ===== src/K8s/Answer.antt =====
-- What a reconciler of platform/k8s/reconcilers returns, `(ctrl.Result, error)`, and the tests on an
-- API error that it makes.
use muto.Prelude.{ℕ, ◌+◌, ◌*◌, String, Bool, true, false, Option, none, some}
use muto.Prelude.Int.{ℤ, pos}
use muto.K8s.Objects.{Kind, ApiError, not_found, already_exists}
use muto.K8s.Client.{Client}

-- What goes wrong with a tenant's gateway: a call of the API server, the random source, or the
-- missing image.
pub data GatewayError : Type 0 where
  call_failed : ApiError → GatewayError
  token_failed : String → GatewayError
  image_unset : GatewayError

pub data Error : Type 0 where
  get_tenant_failed : String → ApiError → Error
  create_pod_failed list_pods_failed delete_job_failed api : ApiError → Error
  delete_pod_failed : String → ApiError → Error
  add_finalizer_failed remove_finalizer_failed ensure_namespace_failed : ApiError → Error
  gateway_failed : GatewayError → Error
  cleanup_failed : Kind → ApiError → Error

-- The result, with RequeueAfter in nanoseconds.
pub record Answer (W : Type 0) : Type 0 where
  pub world : W
  pub requeue_after : ℤ
  pub error : Option Error

abbrev pub second : ℕ
second = 1000000000

-- `time.Duration(ttl) * time.Second`: an int32 number of seconds, so the product stays in int64.
abbrev pub seconds : ℤ → ℤ
seconds (pos n) = pos (n * second)
seconds (ℤ.negsuc n) = ℤ.negsuc (n * second + 999999999)

abbrev pub done : {W : Type 0} → W → Answer W
done w = record { world = w; requeue_after = pos 0; error = none }

abbrev pub fails : {W : Type 0} → W → Error → Answer W
fails w e = record { world = w; requeue_after = pos 0; error = some e }

abbrev pub requeue : {W : Type 0} → W → ℤ → Answer W
requeue w d = record { world = w; requeue_after = d; error = none }

abbrev pub is_already_exists : ApiError → Bool
is_already_exists already_exists = true
is_already_exists _ = false

abbrev pub is_not_found : ApiError → Bool
is_not_found not_found = true
is_not_found _ = false

-- client.IgnoreNotFound
abbrev pub ignore_not_found : {W : Type 0} → W → ApiError → Answer W
ignore_not_found w not_found = done w
ignore_not_found w e = fails w (api e)

pub status_label : Option Error → String
status_label none = "success"
status_label (some e) = "error"

-- metrics.ObserveReconcile: the call's outcome is recorded under the reconciler's label, and its
-- result and error are returned unchanged.
unfoldable pub observe_reconcile : {W : Type 0} → Client W → String → Answer W → Answer W
unfolding status_label
observe_reconcile c label a = record a { world = c.observe a.world label (status_label a.error) }
