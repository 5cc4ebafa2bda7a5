-- ===== src/Examples/Cluster/Graceful.antt =====
-- The cluster of Examples/Cluster with graceful deletion: a pod whose deletion was accepted still holds its
-- name.
use muto.Prelude.{
  String, ◌==◌, ◌&&◌, ◌||◌, Bool, false, none, some, List, [], ◌∷◌, refl, arith, if◌then◌else◌,
  Option,
}
use muto.K8s.Objects.{Pod, ApiError, not_found, already_exists}
use muto.K8s.Client.{Client}
use muto.K8s.PodStore.{PodStore, CreatesExactly}
use muto.Examples.Cluster.{
  Cluster, has_pod, server, server-PodStore, server-CreatesExactly, server-deletes,
}

-- The names of the pods that are on their way out.
abbrev Names : Type 0
Names = List (String × String)

abbrev is_going : String → String → Names → Bool
is_going ns n [] = false
is_going ns n (x ∷ xs) = ((x.0 == ns) && (x.1 == n)) || is_going ns n xs

abbrev create : Cluster × Names → Pod → (Cluster × Names) × Option ApiError
create (w, going) p =
    if is_going p.namespace p.name going
    then ((w, going), some already_exists)
    else (((server.create_pod w p).0, going), (server.create_pod w p).1)

abbrev delete : Cluster × Names → String → String → (Cluster × Names) × Option ApiError
delete (w, going) ns n =
    if has_pod ns n w.pods
    then (((server.delete_pod w ns n).0, (ns, n) ∷ going), none)
    else if is_going ns n going
    then ((w, going), none)
    else ((w, going), some not_found)

abbrev pub graceful : Client (Cluster × Names)
graceful = record {
  now = λ x. server.now x.0;
  get_pod = λ x ns n. (x, (server.get_pod x.0 ns n).1);
  create_pod = create;
  delete_pod = delete;
  list_pods = λ x ns l v. (x, (server.list_pods x.0 ns l v).1);
  get_tenant = λ x ns n. (x, (server.get_tenant x.0 ns n).1);
  get_job = λ x ns n. (x, (server.get_job x.0 ns n).1);
  update_job_status =
      λ x j. (((server.update_job_status x.0 j).0, x.1), (server.update_job_status x.0 j).1);
  delete_job = λ x ns n. (((server.delete_job x.0 ns n).0, x.1), (server.delete_job x.0 ns n).1);
  get_fleet = λ x ns n. (x, (server.get_fleet x.0 ns n).1);
  update_fleet_status = λ x f. (((server.update_fleet_status x.0 f).0, x.1), none);
  job_started = λ x t n. x;
  job_finished = λ x t l s n. x;
  observe = λ x l s. x;
}

pub graceful-PodStore : PodStore graceful
unfolding server-PodStore
graceful-PodStore = record {
  standing = λ x ns n. server-PodStore.standing x.0 ns n;
  created = λ x p h. ground (arith, server-PodStore.created x.0 p);
  create_keeps = λ x p ns n h. ground (arith, server-PodStore.create_keeps x.0 p ns n h);
  deleted = λ x ns n h. ground (arith, server-deletes x.0 ns n, server-PodStore.deleted x.0 ns n);
  gone = λ x ns n h. ground arith;
  delete_keeps = λ x ns n ns' n' h. ground (arith, server-PodStore.delete_keeps x.0 ns n ns' n' h);
  delete_keeps_other =
      λ x ns n n' d h. ground (arith, server-PodStore.delete_keeps_other x.0 ns n n' d h);
  update_keeps = λ x j ns n. server-PodStore.update_keeps x.0 j ns n;
  started_keeps = λ x t k ns n. refl;
  delete_job_keeps = λ x ns n ns' n' h. server-PodStore.delete_job_keeps x.0 ns n ns' n' h;
}

pub graceful-CreatesExactly : CreatesExactly graceful graceful-PodStore
unfolding graceful-PodStore server-PodStore
graceful-CreatesExactly = record {
  created_new = λ x p h. ground (arith, server-CreatesExactly.created_new x.0 p);
  creates_only = λ x p n h differ gone.
      ground (arith, server-CreatesExactly.creates_only x.0 p n, differ, gone);
}
