-- ===== src/K8s/Memory/Extends.antt =====
-- Growth of the heap: what was in use stays as it was.
use muto.Prelude.{ℕ, ◌≤◌, ◌<◌, ◌≡◌, refl, ◌∙◌, List, [], ◌∷◌, All, arith}
use muto.K8s.Memory.{Heap, write, reserve}

abbrev pub Below : ℕ → List ℕ → Type 0
Below n = All (λ a. a < n)

abbrev pub Fresh : ℕ → ℕ → List ℕ → Type 0
Fresh low high = All (λ a. (low ≤ a) × (a < high))

module _ {C : Type 0} where
  pub record Extends (h g : Heap C) : Type 0 where
    pub grown : h.next ≤ g.next
    pub kept : (a : ℕ) → a < h.next → g.cells a ≡ h.cells a

  abbrev pub Agree : Heap C → Heap C → List ℕ → Type 0
  Agree h g = All (λ a. g.cells a ≡ h.cells a)

  pub Extends-refl : (h : Heap C) → Extends h h
  Extends-refl h = record { grown = omega arith; kept = λ a l. refl }

  pub Extends-trans : {h g k : Heap C} → Extends h g → Extends g k → Extends h k
  Extends-trans e f = record {
    grown = omega arith;
    kept = λ a l. f.kept a (omega (arith, e.grown)) ∙ e.kept a l;
  }

  -- A reserved address, and what is written there.
  pub Extends-reserve : (h : Heap C) → Extends h (reserve h)
  Extends-reserve h = record { grown = omega arith; kept = λ a l. refl }

  pub Extends-write :
      {h g : Heap C} (a : ℕ) (c : C) → Extends h g → h.next ≤ a → Extends h (write g a c)
  unfolding write
  Extends-write a c e l = record { grown = e.grown; kept = λ b m. ground (arith, e.kept b m) }

  pub Agree-write :
      (h : Heap C) (a : ℕ) (c : C) (low high : ℕ) (ns : List ℕ)
      → a < low
      → Fresh low high ns
      → Agree h (write h a c) ns
  unfolding write
  Agree-write h a c low high [] l f = tt
  Agree-write h a c low high (n ∷ ns) l f =
      (ground (arith, f.0), Agree-write h a c low high ns l f.1)

  pub Below-Agree : {h g : Heap C} (ns : List ℕ) → Extends h g → Below h.next ns → Agree h g ns
  Below-Agree [] e b = tt
  Below-Agree (n ∷ ns) e b = (e.kept n b.0, Below-Agree ns e b.1)

pub Fresh-Below : (low high : ℕ) (ns : List ℕ) → Fresh low high ns → Below high ns
Fresh-Below low high [] f = tt
Fresh-Below low high (n ∷ ns) f = (f.0.1, Fresh-Below low high ns f.1)

pub Fresh-widen :
    (low high low' high' : ℕ) (ns : List ℕ)
    → low' ≤ low
    → high ≤ high'
    → Fresh low high ns
    → Fresh low' high' ns
Fresh-widen low high low' high' [] l m f = tt
Fresh-widen low high low' high' (n ∷ ns) l m f =
    ((omega arith, omega arith), Fresh-widen low high low' high' ns l m f.1)

pub Below-widen : (n m : ℕ) (ns : List ℕ) → n ≤ m → Below n ns → Below m ns
Below-widen n m [] l b = tt
Below-widen n m (a ∷ ns) l b = (omega (arith, b.0), Below-widen n m ns l b.1)
