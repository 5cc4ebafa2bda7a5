-- ===== src/Messaging/Kafka/Pumps.antt =====
-- core/messaging/kafka/kafka.go: the live goroutines of the subscriptions, by their keys.
use muto.Prelude.{
  ◌≡◌, refl, sym, String, ◌==◌, eq_iff, eq_refl, false, Option, none, some, List, [], ◌∷◌, ◌++◌,
  All, arith, Bool-cases, inl, inr, if◌then◌else◌,
}
use muto.Messaging.Kafka.{Pump}

module _ {P : Type 0} where
  -- The consumer of the goroutine with the key.
  abbrev pub find : String → List (Pump P) → Option P
  find k [] = none
  find k (p ∷ ps) = if p.key == k then some p.consumer else find k ps

  abbrev pub IsFree : String → List (Pump P) → Type 0
  IsFree k = All (λ p. (p.key == k) ≡ false)

  abbrev pub IsDistinct : List (Pump P) → Type 0
  IsDistinct [] = Unit
  IsDistinct (p ∷ ps) = IsFree p.key ps × IsDistinct ps

  IsFree-remove :
      (k : String) (before : List (Pump P)) (p : Pump P) (after : List (Pump P))
      → IsFree k (before ++ p ∷ after)
      → IsFree k (before ++ after) × ((p.key == k) ≡ false)
  IsFree-remove k [] p after h = (h.1, h.0)
  IsFree-remove k (q ∷ before) p after h =
      let (rest, mid) = IsFree-remove k before p after h.1 in ((h.0, rest), mid)

  pub IsDistinct-remove :
      (before : List (Pump P)) (p : Pump P) (after : List (Pump P))
      → IsDistinct (before ++ p ∷ after)
      → IsDistinct (before ++ after)
  IsDistinct-remove [] p after h = h.1
  IsDistinct-remove (q ∷ before) p after h =
      ((IsFree-remove q.key before p after h.0).0, IsDistinct-remove before p after h.1)

  find-IsFree : (k : String) (ps : List (Pump P)) → IsFree k ps → find k ps ≡ none
  find-IsFree k [] h = refl
  find-IsFree k (p ∷ ps) h = ground (arith, h.0, find-IsFree k ps h.1)

  pub find-remove :
      (k : String) (before : List (Pump P)) (p : Pump P) (after : List (Pump P))
      → IsDistinct (before ++ p ∷ after)
      → find k (before ++ after) ≡ (if p.key == k then none else find k (before ++ p ∷ after))
  find-remove k [] p after h = elim (Bool-cases (p.key == k)) [
    | inl b ↦ rw b (find-IsFree k after (rw (sym ((eq_iff p.key k).0 b)) h.0))
    | inr b ↦ rw b refl
  ]
  find-remove k (q ∷ before) p after h =
      let apart = (IsFree-remove q.key before p after h.0).1 in
      ground (
        arith,
        find-remove k before p after h.1,
        apart,
        eq_iff q.key k,
        eq_iff p.key k,
        eq_iff p.key q.key,
      )

  find_later :
      (p : Pump P) (ps qs : List (Pump P))
      → IsFree p.key qs
      → All (λ q. find q.key ps ≡ some q.consumer) qs
      → All (λ q. find q.key (p ∷ ps) ≡ some q.consumer) qs
  find_later p ps [] free h = tt
  find_later p ps (q ∷ qs) free h = (
    ground (arith, free.0, h.0, eq_iff p.key q.key, eq_iff q.key p.key),
    find_later p ps qs free.1 h.1,
  )

  pub find_self :
      (ps : List (Pump P)) → IsDistinct ps → All (λ p. find p.key ps ≡ some p.consumer) ps
  find_self [] d = tt
  find_self (p ∷ ps) d = (rw (eq_refl p.key) refl, find_later p ps ps d.0 (find_self ps d.1))
