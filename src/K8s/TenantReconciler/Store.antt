-- ===== src/K8s/TenantReconciler/Store.antt =====
-- The objects that the API server holds, as platform/k8s/reconcilers/tenant_reconciler.go relies on it
-- for, while nobody else writes them.
use muto.Prelude.{ℕ, String, Bool, true, false, none, some, ◌≡◌}
use muto.K8s.Types.{Tenant}
use muto.K8s.Objects.{Kind, namespaces, secrets, deployments, services, Object, not_found}
use muto.K8s.TenantReconciler.Api.{Calls}

-- Where an object stands: its kind, its namespace and its name.
abbrev pub place : Object → Kind × String × String
place (Object.namespace o) = (namespaces, "", o.name)
place (Object.secret o) = (secrets, o.namespace, o.name)
place (Object.deployment o) = (deployments, o.namespace, o.name)
place (Object.service o) = (services, o.namespace, o.name)

-- A read answers with what is there, a successful write does its work on the one object that it
-- names, deletion reports an absent object as not found, and the helpers of controllerutil change
-- nothing but the finalizers.
pub record ObjectStore {W : Type 0} (g : Calls W) : Type 0 where
  pub present : W → Kind → String → String → Bool
  pub got : (w : W) (k : Kind) (ns n : String) → (g.get w k ns n).1 ≡ none → present w k ns n ≡ true
  pub get_keeps :
      (w : W) (k k' : Kind) (ns n ns' n' : String)
      → present (g.get w k ns n).0 k' ns' n' ≡ present w k' ns' n'
  pub created :
      (w : W) (o : Object)
      → (g.create w o).1 ≡ none
      → present (g.create w o).0 (place o).0 (place o).1 (place o).2 ≡ true
  pub create_keeps :
      (w : W) (o : Object) (k : Kind) (ns n : String)
      → present w k ns n ≡ true
      → present (g.create w o).0 k ns n ≡ true
  pub deleted :
      (w : W) (k : Kind) (ns n : String)
      → (g.delete w k ns n).1 ≡ none
      → present (g.delete w k ns n).0 k ns n ≡ false
  pub deleted_absent :
      (w : W) (k : Kind) (ns n : String)
      → (g.delete w k ns n).1 ≡ some not_found
      → present (g.delete w k ns n).0 k ns n ≡ false
  pub delete_keeps :
      (w : W) (k k' : Kind) (ns n ns' n' : String)
      → present w k' ns' n' ≡ false
      → present (g.delete w k ns n).0 k' ns' n' ≡ false
  pub random_keeps :
      (w : W) (len : ℕ) (k : Kind) (ns n : String)
      → present (g.random_bytes w len).0 k ns n ≡ present w k ns n
  pub added : (t : Tenant) (f : String) → g.contains_finalizer (g.add_finalizer t f) f ≡ true
  pub add_finalizer_spec : (t : Tenant) (f : String) → (g.add_finalizer t f).spec ≡ t.spec
