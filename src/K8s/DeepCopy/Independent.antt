-- ===== src/K8s/DeepCopy/Independent.antt =====
-- platform/k8s/types/v1alpha1/zz_generated.deepcopy.go: a copy and its original do not share memory.
use muto.Prelude.{
  ℕ, ◌≡◌, ◌⊎◌, inl, inr, refl, sym, ◌∙◌, ltb, if◌then◌else◌, [], ◌∷◌, Option, none, some, List,
  arith,
}
use muto.K8s.Memory.{Heap, Pointer, Kind}
use muto.K8s.Memory.Extends.{Extends, Agree, Below, Fresh}
use muto.K8s.DeepCopy.{deep_copy}
use muto.K8s.DeepCopy.Deep.{Copier, IsDeep}
use muto.K8s.DeepCopy.Pointers.{object, object-IsDeep}
use muto.K8s.DeepCopy.Structs.{Cell}
use muto.K8s.DeepCopy.Kinds.{
  jobs_kind, job_lists_kind, fleets_kind, fleet_lists_kind, tenants_kind, tenant_lists_kind,
}
use muto.K8s.DeepCopy.Generated.{
  Metav1, RuntimeObject, nil, agent_job, agent_job_list, agent_fleet, agent_fleet_list, tenant,
  tenant_list, as_object, agent_job_deep_copy_object, agent_job_list_deep_copy_object,
  agent_fleet_deep_copy_object, agent_fleet_list_deep_copy_object, tenant_deep_copy_object,
  tenant_list_deep_copy_object,
}
use muto.K8s.DeepCopy.Resources

-- The memory below the address as in the first heap, and from there on as in the second.
abbrev pub overlay : {C : Type 0} → ℕ → Heap C → Heap C → Heap C
overlay n low high = record {
  next = high.next;
  cells = λ a. if ltb a n then low.cells a else high.cells a;
}

module _ {C : Type 0} where
  Agree-overlay_low :
      {h g : Heap C} (u : Heap C) (ns : List ℕ)
      → Extends h g
      → Below h.next ns
      → Agree h (overlay h.next g u) ns
  Agree-overlay_low u [] e b = tt
  Agree-overlay_low u (n ∷ ns) e b =
      (ground (arith, b.0, e.kept n b.0), Agree-overlay_low u ns e b.1)

  Agree-overlay_high :
      (low high : ℕ) (g u : Heap C) (ns : List ℕ) → Fresh low high ns → Agree g (overlay low u g) ns
  Agree-overlay_high low high g u [] f = tt
  Agree-overlay_high low high g u (n ∷ ns) f =
      (ground (arith, f.0), Agree-overlay_high low high g u ns f.1)

module _ {C A V : Type 0} (c : Copier C A V) (kind : Kind C A) where
  abbrev pub view : Heap C → Option Pointer → Option V
  view = (object c kind).view

  abbrev pub reach : Heap C → Option Pointer → List ℕ
  reach = (object c kind).reach

  -- The copy `q` in `g` of `p` in `h` says the same. Whatever becomes of the memory that was not in use
  -- before the call, and all that `q` reaches is such memory, `p` says what it said; whatever becomes of
  -- the memory that was in use, `q` does.
  pub record IsIndependent (h : Heap C) (p : Option Pointer) (g : Heap C) (q : Option Pointer)
      : Type 0 where
    pub same : view g q ≡ view h p
    pub original : (u : Heap C) → view (overlay h.next g u) p ≡ view h p
    pub copy : (u : Heap C) → view (overlay h.next u g) q ≡ view h p
    pub fresh : Fresh h.next g.next (reach g q)

  copy-IsIndependent :
      IsDeep c
      → (h : Heap C) (p : Option Pointer) → Below h.next (reach h p)
      → IsIndependent h p (deep_copy c.into kind h p).0 (deep_copy c.into kind h p).1
  copy-IsIndependent d h p below =
      let all = object-IsDeep c kind d in
      let x = (all p).deep h below in
      let g = (deep_copy c.into kind h p).0 in
      let q = (deep_copy c.into kind h p).1 in
      record {
        same = x.same;
        original = λ u.
            ((all p).frame h (overlay h.next g u)
              (Agree-overlay_low u (reach h p) x.extends below)).0;
        copy = λ u.
            ((all q).frame g (overlay h.next u g)
              (Agree-overlay_high h.next g.next g u (reach g q) x.fresh)).0
            ∙ x.same;
        fresh = x.fresh;
      }

  -- An answer of DeepCopyObject: nil for a pointer to nothing, and otherwise a pointer to such a copy.
  abbrev pub IsAnswer :
      (Option Pointer → RuntimeObject) → Heap C → Option Pointer → Heap C × RuntimeObject → Type 0
  IsAnswer wrap h p out =
      ((out.1 ≡ nil) × (view h p ≡ none))
      ⊎ ((q : Pointer) × (out.1 ≡ wrap (some q)) × IsIndependent h p out.0 (some q))

  as_object-IsAnswer :
      (wrap : Option Pointer → RuntimeObject) (h : Heap C) (p : Option Pointer)
      (out : Heap C × Option Pointer)
      → IsIndependent h p out.0 out.1
      → IsAnswer wrap h p (as_object wrap out)
  as_object-IsAnswer wrap h p (g, none) i = inl (refl, sym i.same)
  as_object-IsAnswer wrap h p (g, some q) i = inr (q, refl, i)

  deep_copy-IsAnswer :
      (wrap : Option Pointer → RuntimeObject)
      → IsDeep c
      → (h : Heap C) (p : Option Pointer) → Below h.next (reach h p)
      → IsAnswer wrap h p (as_object wrap (deep_copy c.into kind h p))
  deep_copy-IsAnswer wrap d h p below =
      as_object-IsAnswer wrap h p (deep_copy c.into kind h p) (copy-IsIndependent d h p below)

-- The types with a DeepCopyObject.
pub data ObjectType : Type 0 where
  jobs job_lists fleets fleet_lists tenants tenant_lists : ObjectType

module _ {M L X V U T : Type 0} (om : Copier (Cell M L X) M V) (lm : Copier (Cell M L X) L U)
    (tm : Copier (Cell M L X) Pointer T) where
  abbrev m : Metav1 M L X
  m = Resources.metav1 om lm tm

  -- The arrays that the object reaches.
  abbrev pub reach_of : ObjectType → Heap (Cell M L X) → Option Pointer → List ℕ
  reach_of jobs = reach (Resources.job om lm tm) jobs_kind
  reach_of job_lists = reach (Resources.job_list om lm tm) job_lists_kind
  reach_of fleets = reach (Resources.fleet om lm tm) fleets_kind
  reach_of fleet_lists = reach (Resources.fleet_list om lm tm) fleet_lists_kind
  reach_of tenants = reach (Resources.tenant om lm tm) tenants_kind
  reach_of tenant_lists = reach (Resources.tenant_list om lm tm) tenant_lists_kind

  -- DeepCopyObject of the type, on this heap and pointer.
  abbrev pub IsIndependentCopy : ObjectType → Heap (Cell M L X) → Option Pointer → Type 0
  IsIndependentCopy jobs h p =
      IsAnswer (Resources.job om lm tm) jobs_kind agent_job h p (agent_job_deep_copy_object m h p)
  IsIndependentCopy job_lists h p =
      IsAnswer (Resources.job_list om lm tm) job_lists_kind agent_job_list h p
        (agent_job_list_deep_copy_object m h p)
  IsIndependentCopy fleets h p =
      IsAnswer (Resources.fleet om lm tm) fleets_kind agent_fleet h p
        (agent_fleet_deep_copy_object m h p)
  IsIndependentCopy fleet_lists h p =
      IsAnswer (Resources.fleet_list om lm tm) fleet_lists_kind agent_fleet_list h p
        (agent_fleet_list_deep_copy_object m h p)
  IsIndependentCopy tenants h p =
      IsAnswer (Resources.tenant om lm tm) tenants_kind tenant h p (tenant_deep_copy_object m h p)
  IsIndependentCopy tenant_lists h p =
      IsAnswer (Resources.tenant_list om lm tm) tenant_lists_kind tenant_list h p
        (tenant_list_deep_copy_object m h p)

  -- When the deep copies of metav1.ObjectMeta, ListMeta and Time make deep copies (IsDeep), so does
  -- DeepCopyObject of each of the six types. For a pointer that reaches only memory in use, it answers
  -- nil if that points to nothing, and otherwise a pointer of its type to a copy that reads the same;
  -- all that the copy reaches was not in use before. Whatever is then done to that memory, the
  -- original reads as before the call; whatever is done to the rest, the copy does.
  pub deep_copy_object-IsIndependentCopy :
      IsDeep om
      → IsDeep lm
      → IsDeep tm
      → (type : ObjectType) (h : Heap (Cell M L X)) (p : Option Pointer)
      → Below h.next (reach_of type h p)
      → IsIndependentCopy type h p
  unfolding agent_job_deep_copy_object agent_job_list_deep_copy_object agent_fleet_deep_copy_object
      agent_fleet_list_deep_copy_object tenant_deep_copy_object tenant_list_deep_copy_object
  deep_copy_object-IsIndependentCopy o l t jobs =
      deep_copy-IsAnswer (Resources.job om lm tm) jobs_kind agent_job
        (Resources.job-IsDeep om lm tm o t)
  deep_copy_object-IsIndependentCopy o l t job_lists =
      deep_copy-IsAnswer (Resources.job_list om lm tm) job_lists_kind agent_job_list
        (Resources.job_list-IsDeep om lm tm o l t)
  deep_copy_object-IsIndependentCopy o l t fleets =
      deep_copy-IsAnswer (Resources.fleet om lm tm) fleets_kind agent_fleet
        (Resources.fleet-IsDeep om lm tm o)
  deep_copy_object-IsIndependentCopy o l t fleet_lists =
      deep_copy-IsAnswer (Resources.fleet_list om lm tm) fleet_lists_kind agent_fleet_list
        (Resources.fleet_list-IsDeep om lm tm o l)
  deep_copy_object-IsIndependentCopy o l t tenants =
      deep_copy-IsAnswer (Resources.tenant om lm tm) tenants_kind tenant
        (Resources.tenant-IsDeep om lm tm o)
  deep_copy_object-IsIndependentCopy o l t tenant_lists =
      deep_copy-IsAnswer (Resources.tenant_list om lm tm) tenant_lists_kind tenant_list
        (Resources.tenant_list-IsDeep om lm tm o l)
