-- ===== src/K8s/TenantReconciler/Api.antt =====
-- The calls that platform/k8s/reconcilers/tenant_reconciler.go makes beside those of K8s/Client, as a
-- parameter: reading whether an object exists, writing objects, the finalizer helpers of
-- controllerutil, the system's random source and the environment.
use muto.Prelude.{ℕ, String, Bool, Option, List, Result}
use muto.K8s.Types.{Tenant}
use muto.K8s.Objects.{Kind, Object, ApiError}

pub record Calls (W : Type 0) : Type 0 where
  pub get : W → Kind → String → String → W × Option ApiError
  pub create : W → Object → W × Option ApiError
  pub delete : W → Kind → String → String → W × Option ApiError
  pub update_tenant : W → Tenant → W × Option ApiError
  pub update_tenant_status : W → Tenant → W × Option ApiError
  pub contains_finalizer : Tenant → String → Bool
  pub add_finalizer : Tenant → String → Tenant
  pub remove_finalizer : Tenant → String → Tenant
  pub random_bytes : W → ℕ → W × Result String (List ℕ)
  pub getenv : W → String → String
