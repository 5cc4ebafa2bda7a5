-- ===== src/K8s/DeepCopy.antt =====
-- platform/k8s/types/v1alpha1/zz_generated.deepcopy.go: the statements that the generated functions
-- are made of. `into` is the DeepCopyInto of a type: from the value of `*in`, with the heap, to the
-- value that it leaves in `*out`.
pub mod Deep
pub mod Statements
pub mod Pointers
pub mod Structs
pub mod Kinds
pub mod Generated
pub mod Resources
pub mod Independent
use muto.Prelude.{Option, none, some, List, [], ◌∷◌}
use muto.K8s.Memory.{Heap, Kind, Pointer, Slice, write, reserve, load, elements, whole}

abbrev pub Into : Type 0 → Type 0 → Type 0
Into C A = Heap C → A → Heap C × A

module _ {C A : Type 0} where
  -- `if in.F != nil { *out = make([]T, len(*in)); copy(*out, *in) }`
  unfoldable pub copy_flat : Kind C A → Into C (Option Slice)
  copy_flat kind h none = (h, none)
  copy_flat kind h (some s) =
      let xs = elements kind h s in
      (write (reserve h) h.next (kind.to_cell xs), some (whole h.next xs))

  -- `for i := range *in { (*in)[i].DeepCopyInto(&(*out)[i]) }`
  unfoldable pub copy_items : Into C A → Into C (List A)
  copy_items into h [] = (h, [])
  copy_items into h (x ∷ xs) =
      let (h', y) = into h x in let (h'', ys) = copy_items into h' xs in (h'', y ∷ ys)

  -- `if in.F != nil`, `make`, and that loop. The new array is filled in one write after the loop:
  -- nothing reads it before.
  unfoldable pub copy_slice : Into C A → Kind C A → Into C (Option Slice)
  unfolding copy_items
  copy_slice into kind h none = (h, none)
  copy_slice into kind h (some s) =
      let (h', ys) = copy_items into (reserve h) (elements kind h s) in
      (write h' h.next (kind.to_cell ys), some (whole h.next ys))

  -- `if in.F != nil { *out = (*in).DeepCopy() }`
  unfoldable pub copy_pointer : Into C A → Into C (Option A)
  copy_pointer into h none = (h, none)
  copy_pointer into h (some p) = let (h', q) = into h p in (h', some q)

  -- DeepCopy: nil for nil, and otherwise `new(T)` with the copy of what the pointer points to.
  unfoldable pub deep_copy : Into C A → Kind C A → Into C (Option Pointer)
  deep_copy into kind h none = (h, none)
  deep_copy into kind h (some p) = elim (load kind h p) [
    | none ↦ (h, none)
    | some a ↦
        let (h', b) = into (reserve h) a in
        (write h' h.next (kind.to_cell (b ∷ [])), some (record { array = h.next; index = 0 }))
  ]
