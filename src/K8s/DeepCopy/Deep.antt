-- ===== src/K8s/DeepCopy/Deep.antt =====
-- What a deep copy is, and that the statements of the generated functions make one.
use muto.Prelude.{ℕ, ◌≤◌, ◌<◌, ◌≡◌, refl, ap, List, ◌++◌, All-append, append-All, arith}
use muto.K8s.Memory.{Heap}
use muto.K8s.Memory.Extends.{
  Extends, Extends-trans, Agree, Below, Below-Agree, Below-widen, Fresh, Fresh-Below, Fresh-widen,
}
use muto.K8s.DeepCopy.{Into}

-- A DeepCopyInto; what a value says, when its pointers are followed; and which arrays it reaches.
pub record Copier (C A V : Type 0) : Type 0 where
  pub into : Into C A
  pub view : Heap C → A → V
  pub reach : Heap C → A → List ℕ

module _ {C A V : Type 0} (c : Copier C A V) where
  -- The copy says the same, what was in use stays as it was, and all that the copy reaches is new.
  pub record IsCopy (h : Heap C) (a : A) (out : Heap C × A) : Type 0 where
    pub extends : Extends h out.0
    pub same : c.view out.0 out.1 ≡ c.view h a
    pub fresh : Fresh h.next out.0.next (c.reach out.0 out.1)

  -- A value depends only on what it reaches, and is copied if all of that is in use.
  pub record IsDeepAt (a : A) : Type 0 where
    pub frame :
        (h g : Heap C)
        → Agree h g (c.reach h a)
        → (c.view g a ≡ c.view h a) × (c.reach g a ≡ c.reach h a)
    pub deep : (h : Heap C) → Below h.next (c.reach h a) → IsCopy h a (c.into h a)

  abbrev pub IsDeep : Type 0
  IsDeep = (a : A) → IsDeepAt a

module _ {C A B V W : Type 0} (c : Copier C A V) (d : Copier C B W) where
  -- One statement after the other.
  abbrev pub both : Copier C (A × B) (V × W)
  both = record {
    into = λ h x. let (h', a) = c.into h x.0 in let (h'', b) = d.into h' x.1 in (h'', (a, b));
    view = λ h x. (c.view h x.0, d.view h x.1);
    reach = λ h x. c.reach h x.0 ++ d.reach h x.1;
  }

  both-IsCopy :
      (a : A) (b : B)
      → IsDeep c
      → IsDeepAt d b
      → (h : Heap C) → Below h.next (c.reach h a ++ d.reach h b)
      → IsCopy both h (a, b) (both.into h (a, b))
  both-IsCopy a b any q h below =
      let (l, m) = append-All (λ n. n < h.next) (c.reach h a) (d.reach h b) below in
      let x = (any a).deep h l in
      let h₁ = (c.into h a).0 in
      let a' = (c.into h a).1 in
      let g = q.frame h h₁ (Below-Agree (d.reach h b) x.extends m) in
      let y = q.deep h₁ (rw g.1 (Below-widen h.next h₁.next (d.reach h b) x.extends.grown m)) in
      let h₂ = (d.into h₁ b).0 in
      let b' = (d.into h₁ b).1 in
      let f = (any a').frame h₁ h₂ (
        Below-Agree (c.reach h₁ a') y.extends
          (Fresh-Below h.next h₁.next (c.reach h₁ a') x.fresh)) in
      record {
        extends = Extends-trans x.extends y.extends;
        same = cc (f.0, x.same, y.same, g.0);
        fresh =
            All-append (λ n. (h.next ≤ n) × (n < h₂.next)) (c.reach h₂ a') (d.reach h₂ b')
              (rw f.1 (
                Fresh-widen h.next h₁.next h.next h₂.next (c.reach h₁ a') (omega arith)
                  y.extends.grown x.fresh))
              (Fresh-widen h₁.next h₂.next h.next h₂.next (d.reach h₂ b') x.extends.grown
                (omega arith) y.fresh);
      }

  pub both-IsDeepAt : IsDeep c → (a : A) (b : B) → IsDeepAt d b → IsDeepAt both (a, b)
  both-IsDeepAt any a b q = record {
    frame = λ h g agree.
        let (l, m) = append-All (λ n. g.cells n ≡ h.cells n) (c.reach h a) (d.reach h b) agree in
        let x = (any a).frame h g l in let y = q.frame h g m in (cc (x.0, y.0), cc (x.1, y.1));
    deep = both-IsCopy a b any q;
  }

  pub both-IsDeep : IsDeep c → IsDeep d → IsDeep both
  both-IsDeep p q x = both-IsDeepAt p x.0 x.1 (q x.1)

-- The fields of a struct that are not copied by `*out = *in` alone; `see` shows the struct with what
-- they say.
pub record Fields (R A V W : Type 0) : Type 0 where
  pub get : R → A
  pub put : R → A → R
  pub see : R → V → W
  pub get-put : (r : R) (a : A) → get (put r a) ≡ a
  pub see-put : (r : R) (a : A) (v : V) → see (put r a) v ≡ see r v

module _ {C A R V W : Type 0} (c : Copier C A V) (f : Fields R A V W) where
  abbrev pub fields : Copier C R W
  fields = record {
    into = λ h r. let (h', a) = c.into h (f.get r) in (h', f.put r a);
    view = λ h r. f.see r (c.view h (f.get r));
    reach = λ h r. c.reach h (f.get r);
  }

  pub fields-IsDeep : IsDeep c → IsDeep fields
  fields-IsDeep p r = record {
    frame = λ h g agree. let x = (p (f.get r)).frame h g agree in (ap (f.see r) x.0, x.1);
    deep = λ h below.
        let x = (p (f.get r)).deep h below in
        let a = (c.into h (f.get r)).1 in
        record {
          extends = x.extends;
          same = rw (f.get-put r a, f.see-put r a, x.same) refl;
          fresh = rw (f.get-put r a) x.fresh;
        };
  }
