-- ===== src/Cf/RealClient/Dropping.antt =====
-- platform/cf/adapter.go over platform/cf/client.go: which errors of a termination are dropped.
use muto.Prelude.{
  ℕ, String, ◌<>◌, Bool, true, false, ◌||◌, none, List, [], ◌∷◌, ◌++◌, err, ◌≡◌, refl, arith,
}
use Prim.Native.String.append
use muto.Prelude.Text.{lowered}
use muto.Cf.Cache.{GuidCache}
use muto.Cf.Adapter.{CfAdapterConfig, contains, is_terminal_message, terminate_agent}
use muto.Cf.RealClient.{GoCfClient, real_cf_client, error_text, cancel_task, cancel_task_failed}

lowered-append : (s t : String) → lowered (s <> t) ≡ lowered s ++ lowered t
lowered-append String.[] t = simp append.nil
lowered-append (String.◌∷◌ c s) t = simp (append.cons, lowered-append s t)

contains-append :
    (word before text : List ℕ) → contains word text ≡ true → contains word (before ++ text) ≡ true
unfolding contains
contains-append word [] text h = h
contains-append word (c ∷ before) text h = ground (arith, contains-append word before text h)

either :
    (a b : Bool) {x y : Bool}
    → a || b ≡ true
    → (a ≡ true → x ≡ true)
    → (b ≡ true → y ≡ true)
    → x || y ≡ true
either true b h f g = rw (f refl) refl
either false b {x} {y} h f g = ground (arith, g h)

-- A message stays terminal when it is wrapped.
is_terminal_message-wrapped :
    (before text : String)
    → is_terminal_message text ≡ true
    → is_terminal_message (before <> text) ≡ true
unfolding is_terminal_message
is_terminal_message-wrapped before text h = rw (lowered-append before text) (
    either (contains (lowered "succeeded") (lowered text))
      (contains (lowered "failed") (lowered text)) h
      (contains-append (lowered "succeeded") (lowered before) (lowered text))
      (contains-append (lowered "failed") (lowered before) (lowered text)))

-- On Cloud Foundry, when the API refuses to cancel a task with any error whose text has the word
-- "failed" or "succeeded" in it, in any case, TerminateAgent returns no error, whatever the reason was:
-- the caller takes the agent for stopped.
terminate_agent-drops :
    {W X : Type 0} (cf : GoCfClient W X) (quoted : String → String) (config : CfAdapterConfig)
    (w : W) (cache : GuidCache) (task : String) (e : X)
    → (cf.tasks_cancel w task).1 ≡ err e
    → is_terminal_message (cf.text e) ≡ true
    → terminate_agent (real_cf_client cf quoted) config (w, cache) task
      ≡ (((cf.tasks_cancel w task).0, cache), none)
unfolding terminate_agent real_cf_client error_text cancel_task
terminate_agent-drops cf quoted config w cache task e h over =
    let wrapped : is_terminal_message (error_text cf quoted (cancel_task_failed task e)) ≡ true =
      is_terminal_message-wrapped "cancel task " (quoted task <> (": " <> cf.text e)) (
        is_terminal_message-wrapped (quoted task) (": " <> cf.text e)
          (is_terminal_message-wrapped ": " (cf.text e) over)) in
    rw (h, wrapped) refl
