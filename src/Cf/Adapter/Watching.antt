-- ===== src/Cf/Adapter/Watching.antt =====
-- platform/cf/adapter.go, WatchAgent: how many events it sends.
use muto.Prelude.{String, ◌==◌, Bool, true, false, not, ◌||◌, List, [], ◌∷◌, ◌++◌, ◌≡◌, arith, All}
use muto.Scheduler.Watch.FanIn.{IsDecided}
use muto.Cf.Adapter.{Poll, TaskAnswer, in_state, canceled, failing, watch}

-- The states after which a task is over, for WatchAgent.
abbrev pub is_final_state : String → Bool
is_final_state s = (s == "SUCCEEDED") || ((s == "FAILED") || (s == "CANCELING"))

-- An answer that WatchAgent waits out, and one that it reports: a final state, or an error that is not
-- that of an ended context.
abbrev pub is_waiting : TaskAnswer → Bool
is_waiting (in_state s) = not (is_final_state s)
is_waiting canceled = false
is_waiting (failing m) = false

abbrev pub is_final : TaskAnswer → Bool
is_final (in_state s) = is_final_state s
is_final canceled = false
is_final (failing m) = true

-- After answers that it waits out, on the first final one WatchAgent sends one terminal event: the
-- channel is one that watchJob counts on. An error of the API is final here.
pub cf_watch-IsDecided :
    (id : String) (ps : List Poll) (p : Poll) (rest : List Poll)
    → All (λ q. (is_waiting q.answer ≡ true) × (q.ends ≡ false)) ps
    → is_final p.answer ≡ true
    → IsDecided (watch id (ps ++ p ∷ rest))
unfolding watch
cf_watch-IsDecided id [] p rest h f = ground arith
cf_watch-IsDecided id (q ∷ ps) p rest h f = ground (arith, cf_watch-IsDecided id ps p rest h.1 f)
