-- ===== src/K8s/DeepCopy/Statements.antt =====
-- The statements that the generated functions are made of are deep copies, if their parts are.
use muto.Prelude.{ℕ, ◌+◌, ◌≡◌, refl, ap, ◌∙◌, Option, none, some, List, [], ◌∷◌, ◌++◌, map, arith}
use muto.K8s.Memory.{Heap, Kind, Slice, write, reserve, elements, whole, contents, take-length}
use muto.K8s.Memory.Extends.{
  Extends, Extends-refl, Extends-trans, Extends-reserve, Extends-write, Agree-write, Below,
  Below-Agree, Below-widen, Fresh, Fresh-widen,
}
use muto.K8s.DeepCopy.{copy_flat, copy_items, copy_slice}
use muto.K8s.DeepCopy.Deep.{Copier, IsDeep, both-IsDeepAt}

-- A written array, read back whole.
pub contents-write :
    {C A : Type 0} (kind : Kind C A) (h : Heap C) (a : ℕ) (xs : List A)
    → contents kind (write h a (kind.to_cell xs)) a ≡ xs
unfolding write
contents-write kind h a xs = ground (arith, kind.from_cell-to_cell xs)

elements-write :
    {C A : Type 0} (kind : Kind C A) (h : Heap C) (a : ℕ) (xs : List A)
    → elements kind (write h a (kind.to_cell xs)) (whole a xs) ≡ xs
elements-write kind h a xs = rw (contents-write kind h a xs) (take-length xs)

-- The addresses of the elements.
abbrev pub gather : {A : Type 0} → (A → List ℕ) → List A → List ℕ
gather f [] = []
gather f (x ∷ xs) = f x ++ gather f xs

-- No pointers, so nothing but `*out = *in`.
abbrev pub plain : {C A : Type 0} → Copier C A A
plain = record { into = λ h a. (h, a); view = λ h a. a; reach = λ h a. [] }

pub plain-IsDeep : {C A : Type 0} → IsDeep (plain {C = C} {A = A})
plain-IsDeep a = record {
  frame = λ h g agree. (refl, refl);
  deep = λ h below. record { extends = Extends-refl h; same = refl; fresh = tt };
}

module _ {C A : Type 0} (kind : Kind C A) where
  abbrev pub flat : Copier C (Option Slice) (Option (List A))
  flat = record {
    into = copy_flat kind;
    view = λ h s. elim s [ none ↦ none | some t ↦ some (elements kind h t) ];
    reach = λ h s. elim s [ none ↦ [] | some t ↦ t.array ∷ [] ];
  }

  pub flat-IsDeep : IsDeep flat
  unfolding copy_flat write
  flat-IsDeep none = record {
    frame = λ h g agree. (refl, refl);
    deep = λ h below. record { extends = Extends-refl h; same = refl; fresh = tt };
  }
  flat-IsDeep (some s) = record {
    frame = λ h g agree. (rw agree.0 refl, refl);
    deep = λ h below.
        let xs = elements kind h s in
        record {
          extends = Extends-write h.next (kind.to_cell xs) (Extends-reserve h) (omega arith);
          same = ap some (elements-write kind (reserve h) h.next xs);
          fresh = ((omega arith, omega arith), tt);
        };
  }

module _ {C A V : Type 0} (c : Copier C A V) where
  abbrev pub items : Copier C (List A) (List V)
  items = record {
    into = copy_items c.into;
    view = λ h. map (c.view h);
    reach = λ h. gather (c.reach h);
  }

  pub items-IsDeep : IsDeep c → IsDeep items
  unfolding copy_items
  items-IsDeep p [] = record {
    frame = λ h g agree. (refl, refl);
    deep = λ h below. record { extends = Extends-refl h; same = refl; fresh = tt };
  }
  items-IsDeep p (x ∷ xs) =
      let both_at = both-IsDeepAt c items p x xs (items-IsDeep p xs) in
      record {
        frame = λ h g agree. let y = both_at.frame h g agree in (ap (λ v. v.0 ∷ v.1) y.0, y.1);
        deep = λ h below.
            let y = both_at.deep h below in
            record { extends = y.extends; same = ap (λ v. v.0 ∷ v.1) y.same; fresh = y.fresh };
      }

module _ {C A V : Type 0} (c : Copier C A V) (kind : Kind C A) where
  -- A new array with the copies `ys` of `xs`, from `h` to `g`.
  pub record Filled (h : Heap C) (xs : List A) (g : Heap C) (ys : List A) : Type 0 where
    pub extends : Extends h g
    pub read : contents kind g h.next ≡ ys
    pub same : map (c.view g) ys ≡ map (c.view h) xs
    pub fresh : Fresh h.next g.next (h.next ∷ gather (c.reach g) ys)

  pub fill :
      IsDeep c
      → (h : Heap C) (xs : List A) → Below h.next (gather (c.reach h) xs)
      → Filled h xs
          (write
            (copy_items c.into (reserve h) xs).0
            h.next
            (kind.to_cell (copy_items c.into (reserve h) xs).1))
          (copy_items c.into (reserve h) xs).1
  unfolding write
  fill p h xs below =
      let start =
        (items-IsDeep c p xs).frame h (reserve h)
          (Below-Agree (gather (c.reach h) xs) (Extends-reserve h) below) in
      let z = (items-IsDeep c p xs).deep (reserve h) (
        rw start.1 (Below-widen h.next (h.next + 1) (gather (c.reach h) xs) (omega arith) below)) in
      let h₂ = (copy_items c.into (reserve h) xs).0 in
      let ys = (copy_items c.into (reserve h) xs).1 in
      let f = (items-IsDeep c p ys).frame h₂ (write h₂ h.next (kind.to_cell ys)) (
        Agree-write h₂ h.next (kind.to_cell ys) (h.next + 1) h₂.next (gather (c.reach h₂) ys)
          (omega arith) z.fresh) in
      record {
        extends =
            Extends-write h.next (kind.to_cell ys) (Extends-trans (Extends-reserve h) z.extends)
              (omega arith);
        read = contents-write kind h₂ h.next ys;
        same = f.0 ∙ z.same ∙ start.0;
        fresh = (
          (omega arith, omega (arith, z.extends.grown)),
          rw f.1 (
              Fresh-widen (h.next + 1) h₂.next h.next h₂.next (gather (c.reach h₂) ys) (omega arith)
                (omega arith) z.fresh),
        );
      }

  abbrev pub slice : Copier C (Option Slice) (Option (List V))
  slice = record {
    into = copy_slice c.into kind;
    view = λ h s. elim s [ none ↦ none | some t ↦ some (map (c.view h) (elements kind h t)) ];
    reach = λ h s. elim s [ none ↦ [] | some t ↦ t.array ∷ gather (c.reach h) (elements kind h t) ];
  }

  pub slice-IsDeep : IsDeep c → IsDeep slice
  unfolding copy_slice
  slice-IsDeep p none = record {
    frame = λ h g agree. (refl, refl);
    deep = λ h below. record { extends = Extends-refl h; same = refl; fresh = tt };
  }
  slice-IsDeep p (some s) = record {
    frame = λ h g agree.
        let y = (items-IsDeep c p (elements kind h s)).frame h g agree.1 in
        rw agree.0 (ap some y.0, ap (λ ns. s.array ∷ ns) y.1);
    deep = λ h below.
        let xs = elements kind h s in
        let z = fill p h xs below.1 in
        let ys = (copy_items c.into (reserve h) xs).1 in
        record {
          extends = z.extends;
          same = rw (z.read, take-length ys) (ap some z.same);
          fresh = rw (z.read, take-length ys) z.fresh;
        };
  }
