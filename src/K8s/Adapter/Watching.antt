-- ===== src/K8s/Adapter/Watching.antt =====
-- platform/k8s/adapter.go, WatchAgent: how many events it sends.
use muto.Prelude.{
  ◌≤◌, String, Bool, true, false, List, [], ◌∷◌, ◌++◌, Result, ok, err, ◌≡◌, arith, All, length,
}
use muto.Scheduler.Watch.FanIn.{IsDecided}
use muto.K8s.Objects.{PodPhase, ApiError, not_found}
use muto.K8s.Adapter.{Poll, round, watch}

-- WatchAgent sends at most one event, whatever happens.
pub length-watch : (id : String) (ps : List Poll) → length (watch id ps) ≤ 1
unfolding watch
length-watch id [] = omega arith
length-watch id (p ∷ ps) = ground (arith, length-watch id ps)

-- The answers after which an agent is over.
abbrev pub is_final : Result ApiError PodPhase → Bool
is_final (err not_found) = true
is_final (err e) = false
is_final (ok PodPhase.succeeded) = true
is_final (ok PodPhase.failed) = true
is_final (ok (PodPhase.other x)) = false

abbrev pub IsUndisturbed : Poll → Type 0
IsUndisturbed p = (p.ended ≡ false) × (p.ends_in_wait ≡ false)

-- As long as its context has not ended, WatchAgent on Kubernetes waits out every answer that is
-- not final, transient errors included, and on the first final one it sends one terminal event:
-- the channel is one that watchJob counts on.
pub watch-IsDecided :
    (id : String) (ps : List Poll) (p : Poll) (rest : List Poll)
    → All (λ q. IsUndisturbed q × (is_final q.answer ≡ false)) ps
    → IsUndisturbed p
    → is_final p.answer ≡ true
    → IsDecided (watch id (ps ++ p ∷ rest))
unfolding watch round
watch-IsDecided id [] p rest h u f = ground arith
watch-IsDecided id (q ∷ ps) p rest h u f = ground (arith, watch-IsDecided id ps p rest h.1 u f)
