-- ===== src/Scheduler/Listing/Unordered.antt =====
-- core/scheduler/scheduler.go, ListActive, and mcp/tools/tools.go, DescribeTenant: Go walks a map in any
-- order. The order of the association list stands for one; here are two.
use mathlib.Core.List.{Permᴰ}
use mathlib.Core.List.Permᴰ
use muto.Prelude.{suc, String, List, ◌∷◌, ◌≡◌, refl, ap, ◌∙◌, subst, Bool-cases, inl, inr, length}
use muto.Prelude.Dict.{Dict}
use muto.Scheduler.{State, JobRecord, active_jobs, is_active_of, list_active}

abbrev Entry : Type 0
Entry = String × JobRecord

-- The step of the walk, by the test on the entry.
active_jobs-cons :
    (tenant : String) (e : Entry) (m m' : Dict JobRecord)
    → Permᴰ (active_jobs tenant m) (active_jobs tenant m')
    → Permᴰ (active_jobs tenant (e ∷ m)) (active_jobs tenant (e ∷ m'))
unfolding active_jobs
active_jobs-cons tenant e m m' d = elim (Bool-cases (is_active_of tenant e.1)) [
  | inl b ↦ rw b (Permᴰ.cons refl d)
  | inr b ↦ rw b d
]

active_jobs-swap :
    (tenant : String) (e f : Entry) (m : Dict JobRecord)
    → Permᴰ (active_jobs tenant (e ∷ f ∷ m)) (active_jobs tenant (f ∷ e ∷ m))
unfolding active_jobs
active_jobs-swap tenant e f m = elim (Bool-cases (is_active_of tenant e.1)) [
  | inl b ↦ elim (Bool-cases (is_active_of tenant f.1)) [
    | inl d ↦ rw (b, d) (Permᴰ.swap refl refl)
    | inr d ↦ rw (b, d) (Permᴰ.refl _)
  ]
  | inr b ↦ elim (Bool-cases (is_active_of tenant f.1)) [
    | inl d ↦ rw (b, d) (Permᴰ.refl _)
    | inr d ↦ rw (b, d) (Permᴰ.refl _)
  ]
]

active_jobs-Perm :
    (tenant : String) {m m' : Dict JobRecord}
    → Permᴰ m m'
    → Permᴰ (active_jobs tenant m) (active_jobs tenant m')
active_jobs-Perm tenant Permᴰ.nil = Permᴰ.refl _
active_jobs-Perm tenant (Permᴰ.cons {a = a} {l₁ = l₁} {l₂ = l₂} e d) =
    subst (λ x. Permᴰ (active_jobs tenant (a ∷ l₁)) (active_jobs tenant (x ∷ l₂))) e
      (active_jobs-cons tenant a l₁ l₂ (active_jobs-Perm tenant d))
active_jobs-Perm tenant (Permᴰ.swap {a = a} {b = b} {b' = b'} {l = l} e f) =
    subst (λ x. Permᴰ (active_jobs tenant (a ∷ b ∷ l)) (active_jobs tenant (x ∷ b' ∷ l))) f
      (subst (λ x. Permᴰ (active_jobs tenant (a ∷ b ∷ l)) (active_jobs tenant (b ∷ x ∷ l))) e
        (active_jobs-swap tenant a b l))
active_jobs-Perm tenant (Permᴰ.trans d d') =
    Permᴰ.trans (active_jobs-Perm tenant d) (active_jobs-Perm tenant d')

length-Perm : {A : Type 0} {l l' : List A} → Permᴰ l l' → length l ≡ length l'
length-Perm Permᴰ.nil = refl
length-Perm (Permᴰ.cons e d) = ap suc (length-Perm d)
length-Perm (Permᴰ.swap e f) = refl
length-Perm (Permᴰ.trans d d') = length-Perm d ∙ length-Perm d'

-- Whatever the order in which Go walks the map of jobs, ListActive gives the same jobs, in another
-- order at most, and so DescribeTenant counts the same number.
list_active-Perm :
    {C : Type 0} (s s' : State C) (tenant : String)
    → Permᴰ s.jobs s'.jobs
    → Permᴰ (list_active s tenant) (list_active s' tenant)
      × (length (list_active s tenant) ≡ length (list_active s' tenant))
unfolding list_active
list_active-Perm s s' tenant d = let same = active_jobs-Perm tenant d in (same, length-Perm same)
