-- ===== src/K8s/DeepCopy/Pointers.antt =====
-- The pointers of DeepCopy and of optional fields, and that they are deep copies, if their parts are.
use muto.Prelude.{
  ℕ, ◌≤◌, ◌<◌, ◌≡◌, refl, ap, Option, none, some, List, [], ◌∷◌, Option-cases, inl, inr, All-append,
  append-All,
}
use muto.K8s.Memory.{Heap, Kind, Pointer, write, reserve, load}
use muto.K8s.Memory.Extends.{Extends-refl, Agree}
use muto.K8s.DeepCopy.{copy_items, copy_pointer, deep_copy}
use muto.K8s.DeepCopy.Deep.{Copier, IsDeep}
use muto.K8s.DeepCopy.Statements.{fill}

module _ {C A V : Type 0} (c : Copier C A V) (kind : Kind C A) where
  abbrev pub see_object : Heap C → Option A → Option V
  see_object h none = none
  see_object h (some a) = some (c.view h a)

  abbrev pub reach_object : Heap C → Option A → List ℕ
  reach_object h none = []
  reach_object h (some a) = c.reach h a

  -- The pointers of DeepCopy.
  abbrev pub object : Copier C (Option Pointer) (Option V)
  object = record {
    into = deep_copy c.into kind;
    view = λ h o. elim o [ none ↦ none | some p ↦ see_object h (load kind h p) ];
    reach = λ h o. elim o [ none ↦ [] | some p ↦ p.array ∷ reach_object h (load kind h p) ];
  }

  object-frame :
      IsDeep c
      → (h g : Heap C) (o : Option A) → Agree h g (reach_object h o)
      → (see_object g o ≡ see_object h o) × (reach_object g o ≡ reach_object h o)
  object-frame p h g none agree = (refl, refl)
  object-frame p h g (some a) agree = let y = (p a).frame h g agree in (ap some y.0, y.1)

  pub object-IsDeep : IsDeep c → IsDeep object
  unfolding deep_copy copy_items
  object-IsDeep p none = record {
    frame = λ h g agree. (refl, refl);
    deep = λ h below. record { extends = Extends-refl h; same = refl; fresh = tt };
  }
  object-IsDeep p (some q) = record {
    frame = λ h g agree.
        let y = object-frame p h g (load kind h q) agree.1 in
        rw agree.0 (y.0, ap (λ ns. q.array ∷ ns) y.1);
    deep = λ h below. elim (Option-cases (load kind h q)) [
      | inl e ↦
          rw (e, deep_copy) (record { extends = Extends-refl h; same = rw e refl; fresh = tt })
      | inr (a, e) ↦
          let now = (rw e at below) in
          let z =
            fill c kind p h (a ∷ []) (All-append (λ n. n < h.next) (c.reach h a) [] now.1 tt) in
          let b = (c.into (reserve h) a).1 in
          let g = write (c.into (reserve h) a).0 h.next (kind.to_cell (b ∷ [])) in
          let (new, tail) =
            append-All (λ n. (h.next ≤ n) × (n < g.next)) (c.reach g b) [] z.fresh.1 in
          rw (e, deep_copy)
            (record {
              extends = z.extends;
              same = rw (e, z.read) (cc (z.same));
              fresh = (z.fresh.0, rw z.read new);
            })
    ];
  }

-- What an optional field points to.
module _ {C A V : Type 0} (c : Copier C A V) where
  abbrev pub pointer : Copier C (Option A) (Option V)
  pointer = record {
    into = copy_pointer c.into;
    view = λ h o. elim o [ none ↦ none | some a ↦ some (c.view h a) ];
    reach = λ h o. elim o [ none ↦ [] | some a ↦ c.reach h a ];
  }

  pub pointer-IsDeep : IsDeep c → IsDeep pointer
  unfolding copy_pointer
  pointer-IsDeep p none = record {
    frame = λ h g agree. (refl, refl);
    deep = λ h below. record { extends = Extends-refl h; same = refl; fresh = tt };
  }
  pointer-IsDeep p (some a) = record {
    frame = λ h g agree. let y = (p a).frame h g agree in (ap some y.0, y.1);
    deep = λ h below.
        let y = (p a).deep h below in
        record { extends = y.extends; same = ap some y.same; fresh = y.fresh };
  }
