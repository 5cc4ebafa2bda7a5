-- ===== src/K8s/Memory.antt =====
-- Go's memory, as far as platform/k8s/types/v1alpha1/zz_generated.deepcopy.go uses it: arrays at
-- addresses, pointers into them and slices of them.
pub mod Extends
use muto.Prelude.{
  ℕ, zero, suc, ◌+◌, ◌≡◌, refl, ap, Option, none, some, List, [], ◌∷◌, eqb, if◌then◌else◌, length,
}

-- `C` is what an address holds. Addresses from `next` on are not in use.
pub record Heap (C : Type 0) : Type 0 where
  pub next : ℕ
  pub cells : ℕ → Option C

-- An array of values of type `A`, as a cell. A cell of another type reads as no element; Go's types
-- rule it out.
pub record Kind (C A : Type 0) : Type 0 where
  pub to_cell : List A → C
  pub from_cell : C → List A
  pub from_cell-to_cell : (xs : List A) → from_cell (to_cell xs) ≡ xs

-- `*T`, if it is not nil: an element of an array.
pub record Pointer : Type 0 where
  pub array : ℕ
  pub index : ℕ

-- `[]T`, if it is not nil.
pub record Slice : Type 0 where
  pub array : ℕ
  pub first : ℕ
  pub length : ℕ

module _ {A : Type 0} where
  abbrev pub get_elem? : List A → ℕ → Option A
  get_elem? [] i = none
  get_elem? (x ∷ xs) zero = some x
  get_elem? (x ∷ xs) (suc i) = get_elem? xs i

  abbrev pub take : ℕ → List A → List A
  take zero xs = []
  take (suc n) [] = []
  take (suc n) (x ∷ xs) = x ∷ take n xs

  abbrev pub drop : ℕ → List A → List A
  drop zero xs = xs
  drop (suc n) [] = []
  drop (suc n) (x ∷ xs) = drop n xs

  pub take-length : (xs : List A) → take (length xs) xs ≡ xs
  take-length [] = refl
  take-length (x ∷ xs) = ap (λ ys. x ∷ ys) (take-length xs)

-- A slice of the whole array.
abbrev pub whole : {A : Type 0} → ℕ → List A → Slice
whole a xs = record { array = a; first = 0; length = length xs }

module _ {C : Type 0} where
  unfoldable pub write : Heap C → ℕ → C → Heap C
  write h a c = record h { cells = λ b. if eqb b a then some c else h.cells b }

  -- `new` and `make` give an address that is not in use. Its contents come with the first `write`.
  abbrev pub reserve : Heap C → Heap C
  reserve h = record h { next = h.next + 1 }

  abbrev pub contents_of : {A : Type 0} → Kind C A → Option C → List A
  contents_of kind none = []
  contents_of kind (some c) = kind.from_cell c

  abbrev pub contents : {A : Type 0} → Kind C A → Heap C → ℕ → List A
  contents kind h a = contents_of kind (h.cells a)

  -- `*p`
  abbrev pub load : {A : Type 0} → Kind C A → Heap C → Pointer → Option A
  load kind h p = get_elem? (contents kind h p.array) p.index

  -- The elements that a `range` over a slice meets.
  abbrev pub elements : {A : Type 0} → Kind C A → Heap C → Slice → List A
  elements kind h s = take s.length (drop s.first (contents kind h s.array))
