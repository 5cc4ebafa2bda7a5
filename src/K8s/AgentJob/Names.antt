-- ===== src/K8s/AgentJob/Names.antt =====
-- platform/k8s/reconcilers/agentjob_reconciler.go, buildPod: which pods share a name.
use muto.Prelude.{
  ℕ, zero, suc, ◌+◌, ◌-◌, ◌*◌, ◌%◌, ◌<◌, ◌≡◌, refl, sym, ap, ◌∙◌, String, ◌<>◌, true, false, arith,
}
use Prim.Native.Nat.{◌/◌}
use Prim.Native.Char.{Char, code}
use Prim.Native.String.append
use muto.Prelude.Int.{pos, ltb_ℤ}
use muto.Prelude.Text.{append_assoc}
use muto.K8s.Types.{AgentJob, AgentRoleSpec}
use muto.K8s.AgentJob.Pods.{digit, digits_on, decimal, pod_name, replicas_of}

-- The number that a text of digits stands for, after the digits read before.
abbrev read : ℕ → String → ℕ
read n String.[] = n
read n (String.◌∷◌ c s) = read (n * 10 + (code c - 48)) s

-- The second text without the beginning that is as long as the first.
abbrev after : String → String → String
after String.[] t = t
after (String.◌∷◌ c s) String.[] = String.[]
after (String.◌∷◌ c s) (String.◌∷◌ d t) = after s t

after-append : (s t : String) → after s (s <> t) ≡ t
after-append String.[] t = simp append.nil
after-append (String.◌∷◌ c s) t = simp (append.cons) (after-append s t)

read_one :
    (n : ℕ) (c : Char) (rest : String)
    → read n (String.◌∷◌ c String.[] <> rest) ≡ read (n * 10 + (code c - 48)) rest
read_one n c rest = simp (append.cons, append.nil)

read-digit : (n d : ℕ) (rest : String) → d < 10 → read n (digit d <> rest) ≡ read (n * 10 + d) rest
unfolding digit
read-digit n zero rest h = read_one n "0" rest
read-digit n (suc zero) rest h = read_one n "1" rest
read-digit n (suc (suc zero)) rest h = read_one n "2" rest
read-digit n (suc (suc (suc zero))) rest h = read_one n "3" rest
read-digit n (suc (suc (suc (suc zero)))) rest h = read_one n "4" rest
read-digit n (suc (suc (suc (suc (suc zero))))) rest h = read_one n "5" rest
read-digit n (suc (suc (suc (suc (suc (suc zero)))))) rest h = read_one n "6" rest
read-digit n (suc (suc (suc (suc (suc (suc (suc zero))))))) rest h = read_one n "7" rest
read-digit n (suc (suc (suc (suc (suc (suc (suc (suc zero)))))))) rest h = read_one n "8" rest
read-digit n (suc (suc (suc (suc (suc (suc (suc (suc (suc zero))))))))) rest h = read_one n "9" rest
read-digit n (suc (suc (suc (suc (suc (suc (suc (suc (suc (suc m)))))))))) rest h = omega arith

read-digits_on :
    (fuel n : ℕ) (rest : String) → n < fuel → read 0 (digits_on fuel n rest) ≡ read n rest
unfolding digits_on
read-digits_on zero n rest h = omega arith
read-digits_on (suc fuel) n rest h = ground (
  arith,
  read-digit 0 n rest,
  read-digits_on fuel (n / 10) (digit (n % 10) <> rest),
  read-digit (n / 10) (n % 10) rest,
)

-- The index in the name of a pod of a role with several replicas.
abbrev index_of : AgentJob → AgentRoleSpec → String → ℕ
index_of job role name = read 0 (after (job.name <> ("-" <> (role.role <> "-"))) name)

-- The name of a pod of a role with several replicas gives the pod's index back.
index_of-pod_name :
    (job : AgentJob) (role : AgentRoleSpec) (i : ℕ)
    → ltb_ℤ (pos 1) (replicas_of role) ≡ true
    → index_of job role (pod_name job role i) ≡ i
unfolding pod_name decimal
index_of-pod_name job role i many =
    let prefix = job.name <> ("-" <> (role.role <> "-")) in
    let named : pod_name job role i ≡ prefix <> decimal i = rw many (simp append_assoc) in
    ap (index_of job role) named
    ∙ ap (read 0) (after-append prefix (decimal i))
    ∙ read-digits_on (suc i) i "" (omega arith)

-- So no two pods of such a role have the same name.
pub pod_name_injective :
    (job : AgentJob) (role : AgentRoleSpec) (i j : ℕ)
    → ltb_ℤ (pos 1) (replicas_of role) ≡ true
    → pod_name job role i ≡ pod_name job role j
    → i ≡ j
pod_name_injective job role i j many same =
    sym (index_of-pod_name job role i many)
    ∙ ap (index_of job role) same
    ∙ index_of-pod_name job role j many

-- Two roles can share a name: a pod of a role with several replicas has the name of the only pod of
-- the role that is called after both, its role and its index.
pod_name-collides :
    (job : AgentJob) (role other : AgentRoleSpec) (i j : ℕ)
    → ltb_ℤ (pos 1) (replicas_of role) ≡ true
    → ltb_ℤ (pos 1) (replicas_of other) ≡ false
    → other.role ≡ role.role <> ("-" <> decimal i)
    → pod_name job role i ≡ pod_name job other j
unfolding pod_name
pod_name-collides job role other i j many one called = rw (many, one, called) refl
