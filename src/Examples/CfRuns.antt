-- ===== src/Examples/CfRuns.antt =====
-- Runs of platform/cf on a Cloud Foundry whose state counts its calls, which is also its clock.
use muto.Prelude.{
  ℕ, suc, String, ◌==◌, eq_iff, false, Option, none, some, [], ◌∷◌, Result, ok, err, ◌≡◌, ◌≢◌,
  if◌then◌else◌, arith, refl, ap, subst,
}
use muto.Agent.{Spec, TriggerType}
use muto.Prelude.Int.{pos, ◌+ℤ◌}
use muto.Prelude.Dict.{lookup, insert}
use muto.Cf.Cache.{GuidCache, get, set, new_guid_cache}
use muto.Cf.Client.{CfClient}
use muto.Cf.Adapter.{
  spawn_agent, ensure_runner_app, new_cf_adapter, CfAdapterConfig, resolve_space_guid, resolve_org,
  resolve_space, Poll, TaskAnswer,
}
use muto.Cf.Adapter.Resolving.{Ticks, resolve_space_guid_again}
use muto.Cf.Adapter.Steady.{Steady, has_colon}
use muto.Cf.Adapter.Isolated.{made, spawned, InOwnSpace, spawn_agent-IsIsolated}

abbrev foundry : CfClient ℕ String
foundry = record {
  now = λ w. pos w;
  get_app_by_name = λ w n s. (suc w, err "not found");
  push_app = λ w r. (suc w, ok "app-1");
  run_task = λ w a r. (suc w, ok "task-1");
  cancel_task = λ w t. (suc w, none);
  get_org_by_name = λ w n. (suc w, ok "org-1");
  get_space_by_name = λ w g n. (suc w, ok "space-1");
  error = λ e. e;
}

foundry-Ticks : Ticks foundry
foundry-Ticks = record { org_later = λ w n. omega arith; space_later = λ w g n. omega arith }

abbrev config : CfAdapterConfig
config = record { isolation_tier = "shared"; shared_org_name = "muto" }

-- The cache after the first resolution, which made two calls.
abbrev warm : GuidCache
warm = record {
  entries =
      ("org:muto", record { guid = "org-1"; expiry = pos 301 })
      ∷ ("space:org-1:acme", record { guid = "space-1"; expiry = pos 302 })
      ∷ [];
  ttl = pos 300;
}

first_run :
    resolve_space_guid foundry config 0 (new_guid_cache (pos 300)) "acme" ≡ (2, warm, ok "space-1")
unfolding resolve_space_guid resolve_org resolve_space get set lookup insert ◌+ℤ◌
first_run = refl

resolve_space_guid_again_example :
    resolve_space_guid foundry config 250 warm "acme" ≡ (250, warm, ok "space-1")
unfolding ◌+ℤ◌
resolve_space_guid_again_example =
    resolve_space_guid_again foundry config foundry-Ticks 0 250 (pos 300) "acme" "space-1" 2 warm
      first_run (omega arith)

abbrev poll : TaskAnswer → Poll
poll a = record { answer = a; ends = false }

-- A Cloud Foundry with one organization and a space for each of two tenants.
abbrev city_org : String → Option String
city_org name = if name == "muto" then some "org-1" else none

abbrev city_space : String → String → Option String
city_space org name =
    if org == "org-1"
    then (if name == "acme"
        then some "space-1"
        else if name == "globex"
        then some "space-2"
        else none)
    else none

abbrev answer : ℕ → Option String → ℕ × Result String String
answer w none = (suc w, err "not found")
answer w (some guid) = (suc w, ok guid)

abbrev city : CfClient ℕ String
city = record foundry {
  get_org_by_name = λ w n. answer w (city_org n);
  get_space_by_name = λ w g n. answer w (city_space g n);
}

answer-ok :
    (w : ℕ) (found : Option String) (guid : String)
    → (answer w found).1 ≡ ok guid
    → found ≡ some guid
answer-ok w none guid h = ground (arith, h)
answer-ok w (some g) guid h = ground (arith, h)

only : (n guid : String) → city_org n ≡ some guid → "org-1" ≡ guid
only n guid h = ground (arith, h)

apart : ◌≢◌ {A = String} "space-1" "space-2"
apart e = ground (arith, ap (λ s. s == "space-2") e)

city-Steady : Steady city
city-Steady = record {
  org_guid = city_org;
  space_guid = city_space;
  org_answers = λ w n g h. answer-ok w (city_org n) g h;
  space_answers = λ w o n g h. answer-ok w (city_space o n) g h;
  org_guid_plain = λ n g h. subst (λ x. has_colon x ≡ false) (only n g h) refl;
  org_guid_injective = λ n o g h k. ground (arith, h, k, eq_iff n "muto", eq_iff o "muto");
  space_guid_injective = λ o n o' n' g h k. ground (
    arith,
    h,
    k,
    apart,
    eq_iff o "org-1",
    eq_iff o' "org-1",
    eq_iff n "acme",
    eq_iff n' "acme",
    eq_iff n "globex",
    eq_iff n' "globex",
  );
}

abbrev spec_of : String → Spec
spec_of tenant = record {
  tenant_ref = tenant;
  trigger = record { type = TriggerType.manual; source = "" };
  agents =
      record { role = "scanner"; image = "scanner:1"; command = "scan"; max_replicas = pos 1 } ∷ [];
  message_bus = record { topic = "" };
  ttl_after_completion = pos 60;
}

abbrev after_acme : GuidCache
after_acme = (spawn_agent city config (0, new_cf_adapter) (spec_of "acme")).0.1

differing : ◌≢◌ {A = String} "acme" "globex"
differing e = ground (arith, ap (λ s. s == "globex") e)

spawn_agent-IsIsolated_example :
    (one : InOwnSpace city config city-Steady
      (spec_of "acme")
      "task-1"
      (spawn_agent city config (0, new_cf_adapter) (spec_of "acme")).0.0)
    × (other : InOwnSpace city config city-Steady
        (spec_of "globex")
        "task-1"
        (spawn_agent city config (9, after_acme) (spec_of "globex")).0.0)
    × (one.space ≢ other.space)
unfolding spawn_agent resolve_space_guid resolve_org resolve_space ensure_runner_app new_cf_adapter
    get set lookup insert ◌+ℤ◌
spawn_agent-IsIsolated_example =
    spawn_agent-IsIsolated city config city-Steady new_cf_adapter after_acme 0 9 (spec_of "acme")
      (spec_of "globex") "task-1" "task-1" made (spawned new_cf_adapter made 0 (spec_of "acme"))
      refl refl differing
