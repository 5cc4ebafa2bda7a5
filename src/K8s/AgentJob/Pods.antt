-- ===== src/K8s/AgentJob/Pods.antt =====
-- platform/k8s/reconcilers/agentjob_reconciler.go, buildPod: the pods of a job.
use muto.Prelude.{
  ℕ, zero, suc, ◌%◌, String, ◌<>◌, ◌==◌, some, List, [], ◌∷◌, ◌++◌, if◌then◌else◌, ltb, eqb,
}
use Prim.Native.Nat.{◌/◌}
use muto.Prelude.Int.{ℤ, pos, eqb_ℤ, ltb_ℤ}
use muto.K8s.Types.{AgentJob, AgentRoleSpec, Tenant}
use muto.K8s.Objects.{Pod, PodPhase, EnvVar, literal, secret}

-- `%d` of a number that is not negative; a number has at most as many digits as its value, plus one.
unfoldable pub digit : ℕ → String
digit n =
    if eqb n 0
    then "0"
    else if eqb n 1
    then "1"
    else if eqb n 2
    then "2"
    else if eqb n 3
    then "3"
    else if eqb n 4
    then "4"
    else if eqb n 5
    then "5"
    else if eqb n 6
    then "6"
    else if eqb n 7
    then "7"
    else if eqb n 8
    then "8"
    else "9"

unfoldable pub digits_on : ℕ → ℕ → String → String
digits_on zero n rest = rest
digits_on (suc fuel) n rest =
    let more = digits_on fuel (n / 10) (digit (n % 10) <> rest) in
    if ltb n 10 then digit n <> rest else more

unfoldable pub decimal : ℕ → String
unfolding digits_on digit
decimal n = digits_on (suc n) n ""

-- MaxReplicas, where 0 stands for 1.
unfoldable pub replicas_of : AgentRoleSpec → ℤ
replicas_of role = if eqb_ℤ role.max_replicas (pos 0) then pos 1 else role.max_replicas

unfoldable pub pod_name : AgentJob → AgentRoleSpec → ℕ → String
unfolding replicas_of decimal
pod_name job role i =
    if ltb_ℤ (pos 1) (replicas_of role)
    then job.name <> ("-" <> (role.role <> ("-" <> decimal i)))
    else job.name <> ("-" <> role.role)

env : String → String → EnvVar
env name value = record { name = name; value = literal value }

abbrev pub bus_type_a2a : String
bus_type_a2a = "a2a"

env_vars : AgentJob → AgentRoleSpec → Tenant → List EnvVar
unfolding env
env_vars job role tenant =
    let own =
      env "MUTO_TENANT" job.spec.tenant_ref
      ∷ env "MUTO_ROLE" role.role
      ∷ env "MUTO_JOB_ID" job.name
      ∷ env "MUTO_MESSAGEBUS_TOPIC" job.spec.message_bus.topic
      ∷ [] in
    if tenant.spec.message_bus.type == bus_type_a2a
    then own
      ++ (env "MUTO_A2A_GATEWAY"
            ("http://a2a-gateway." <> (job.namespace <> ".svc.cluster.local:8080"))
          ∷ record { name = "MUTO_A2A_TOKEN"; value = secret "muto-a2a-token" "token" }
          ∷ [])
    else own

unfoldable pub build_pod : AgentJob → AgentRoleSpec → Tenant → ℕ → Pod
unfolding pod_name env_vars
build_pod job role tenant i = record {
  name = pod_name job role i;
  namespace = job.namespace;
  labels =
      ("muto.io/tenant", job.spec.tenant_ref)
      ∷ ("muto.io/job", job.name)
      ∷ ("muto.io/role", role.role)
      ∷ [];
  owner = some ("AgentJob", job.name);
  containers =
      record {
        name = role.role;
        image = role.image;
        env = env_vars job role tenant;
        command =
            if role.image == "busybox:latest"
            then "sh" ∷ "-c" ∷ "trap 'exit 0' TERM; sleep 30 & wait" ∷ []
            else [];
      }
      ∷ [];
  phase = PodPhase.other "";
}
