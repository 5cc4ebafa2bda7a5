-- ===== src/Examples/Platform.antt =====
-- A platform for core/scheduler/scheduler.go that keeps the names of the agents it runs.
use muto.Prelude.{
  ℕ, String, ◌==◌, eq_iff, eq_refl, Bool, false, ◌||◌, Option, none, some, List, [], ◌∷◌, Result,
  ok, err, if◌then◌else◌, ◌≡◌, arith, refl,
}
use muto.Agent.{Spec}
use muto.Scheduler.Adapter.{PlatformAdapter, Lawful}

abbrev pub has : String → List String → Bool
has id [] = false
has id (x ∷ xs) = (x == id) || has id xs

abbrev pub remove : String → List String → List String
remove id [] = []
remove id (x ∷ xs) = let rest = remove id xs in if x == id then rest else x ∷ rest

-- An agent is named after its role; a role with no image is refused.
abbrev spawn : List String → Spec → List String × Result String String
spawn w s = elim s.agents [
  | [] ↦ (w, err "no roles")
  | role ∷ rest ↦ if role.image == "" then (w, err "no image") else (role.role ∷ w, ok role.role)
]

abbrev terminate : List String → String → List String × Option String
terminate w id = if has id w then (remove id w, none) else (w, some "not found")

abbrev pub names : PlatformAdapter (List String) String ℕ
names = record {
  spawn_agent = spawn;
  terminate_agent = terminate;
  watch_agent = λ w ctx id. (w, ok ctx);
}

has-remove :
    (id j : String) (w : List String) → has j (remove id w) ≡ (if id == j then false else has j w)
has-remove id j [] = ground arith
has-remove id j (x ∷ xs) = ground (arith, has-remove id j xs, eq_iff x id, eq_iff id j, eq_iff x j)

pub names-Lawful : Lawful names
names-Lawful = record {
  alive = λ w id. has id w;
  spawned_alive = λ w s {id} h. ground (arith, eq_refl id);
  spawn_keeps = λ w s j h. ground arith;
  terminated_dead = λ w id h. ground (arith, has-remove id id w, eq_refl id);
  terminate_keeps_dead = λ w id j h. ground (arith, has-remove id j w);
  terminate_keeps_other = λ w id j n h. ground (arith, has-remove id j w, eq_iff id j);
  watch_keeps = λ w ctx id j. refl;
}
