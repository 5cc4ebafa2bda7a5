-- ===== src/Examples/CopyRuns.antt =====
-- Runs of the generated deep copies: metadata with finalizers, and a job in memory.
use muto.Prelude.{ℕ, String, Option, none, some, List, [], ◌∷◌, refl, ap, arith, eqb, if◌then◌else◌}
use muto.Prelude.Int.{ℤ, pos}
use muto.Agent.{running}
use muto.K8s.Memory.{Heap, Kind, Pointer, Slice, write, reserve, contents}
use muto.K8s.Memory.Extends.{Extends-reserve, Extends-write}
use muto.K8s.DeepCopy.Deep.{Copier, IsDeep, Fields, fields, fields-IsDeep}
use muto.K8s.DeepCopy.Statements.{flat, flat-IsDeep, plain, plain-IsDeep, contents-write}
use muto.K8s.DeepCopy.Structs.{Cell, jobs, roles, strings, outside, JobAt}
use muto.K8s.DeepCopy.Kinds.{strings_kind}
use muto.K8s.DeepCopy.Independent.{
  IsIndependentCopy, deep_copy_object-IsIndependentCopy, ObjectType,
}

-- Of metav1.ObjectMeta the name and the finalizers.
record Metadata (F : Type 0) : Type 0 where
  name : String
  finalizers : F

abbrev finalizers_of : {A B : Type 0} → Fields (Metadata A) A B (Metadata B)
finalizers_of = record {
  get = λ m. m.finalizers;
  put = λ m a. record m { finalizers = a };
  see = λ m b. record { name = m.name; finalizers = b };
  get-put = λ m a. refl;
  see-put = λ m a b. refl;
}

abbrev Memory : Type 0
Memory = Cell (Metadata (Option Slice)) String (List ℤ)

abbrev object_meta : Copier Memory (Metadata (Option Slice)) (Metadata (Option (List String)))
object_meta = fields (flat strings_kind) finalizers_of

object_meta-IsDeep : IsDeep object_meta
object_meta-IsDeep = fields-IsDeep (flat strings_kind) finalizers_of (flat-IsDeep strings_kind)

-- Of metav1.ListMeta the resource version.
abbrev list_meta : Copier Memory String String
list_meta = plain

abbrev times_in : Memory → List ℤ
times_in (outside ts) = ts
times_in c = []

abbrev times : Kind Memory ℤ
times = record { to_cell = outside; from_cell = times_in; from_cell-to_cell = λ ts. refl }

-- A time, with the array that it stands in.
abbrev time_into : Heap Memory → Pointer → Heap Memory × Pointer
time_into h p =
    (write (reserve h) h.next (outside (contents times h p.array)), record p { array = h.next })

abbrev time : Copier Memory Pointer (ℕ × List ℤ)
time = record {
  into = time_into;
  view = λ h p. (p.index, contents times h p.array);
  reach = λ h p. p.array ∷ [];
}

time-IsDeep : IsDeep time
unfolding write
time-IsDeep p = record {
  frame = λ h g agree. (rw agree.0 refl, refl);
  deep = λ h below. record {
    extends =
        Extends-write h.next (outside (contents times h p.array)) (Extends-reserve h) (omega arith);
    same =
        ap (λ ts. (p.index, ts))
          (contents-write times (reserve h) h.next (contents times h p.array));
    fresh = ((omega arith, omega arith), tt);
  };
}

abbrev job : JobAt (Metadata (Option Slice))
job = record {
  type_meta = record { kind = "AgentJob"; api_version = "v1alpha1" };
  metadata = record {
    name = "job-1";
    finalizers = some (record { array = 2; first = 0; length = 1 });
  };
  spec = record {
    tenant_ref = "acme";
    trigger = record { type = "event"; source = "bus" };
    agents = some (record { array = 1; first = 0; length = 1 });
    message_bus = record { topic = "acme.job-1" };
    ttl_after_completion = pos 60;
  };
  status = record {
    phase = running;
    active_agents = pos 1;
    started_at = some (record { array = 3; index = 0 });
    completed_at = none;
  };
}

abbrev memory : Heap Memory
memory = record {
  next = 4;
  cells = λ a.
      if eqb a 0
      then some (jobs (job ∷ []))
      else if eqb a 1
      then some (
          roles
            (record { role = "worker"; image = "img"; command = ""; max_replicas = pos 1 } ∷ []))
      else if eqb a 2
      then some (strings ("muto.io/cleanup" ∷ []))
      else if eqb a 3
      then some (outside (pos 7 ∷ []))
      else none;
}

abbrev pointer : Option Pointer
pointer = some (record { array = 0; index = 0 })

deep_copy_object-IsIndependentCopy_example :
    IsIndependentCopy object_meta list_meta time ObjectType.jobs memory pointer
deep_copy_object-IsIndependentCopy_example =
    deep_copy_object-IsIndependentCopy object_meta list_meta time object_meta-IsDeep plain-IsDeep
      time-IsDeep ObjectType.jobs memory pointer (omega arith)
