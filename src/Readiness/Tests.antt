-- ===== src/Readiness/Tests.antt =====
-- A claim's workload with a pod that runs and one that waits.
use portage.Base.{◌≡◌, ◌↔◌, refl, true, none, some, [], ◌∷◌, ok, err}
use portage.Samples.{database}
use portage.Classify.{Workload}
use portage.Readiness.{Answers, Pod, list_pods, ready, first_ready_pod}
use portage.Readiness.Served.{IsListed, IsServed, counts_pods, first_ready_pod-IsServed}

abbrev waiting_pod : Pod
waiting_pod = record {
  name = "db-0";
  phase = "Pending";
  conditions = [];
  owners = "db" ∷ [];
  containers = "postgres" ∷ [];
}

abbrev running_pod : Pod
running_pod = record waiting_pod {
  name = "db-1";
  phase = "Running";
  conditions = ("Ready", "True") ∷ [];
}

abbrev answers : Answers
answers = record {
  stateful_set = err "not found";
  deployment = err "not found";
  daemon_set = err "not found";
  pods = ok (waiting_pod ∷ running_pod ∷ []);
  replica_sets = ok [];
}

abbrev cluster : Workload
cluster = record database { kind = "Cluster" }

picks_running : first_ready_pod answers cluster ≡ (some (running_pod, "postgres"), none)
unfolding first_ready_pod
picks_running = refl

first_ready_pod-IsServed_example :
    IsListed cluster answers.pods answers.replica_sets (list_pods answers cluster)
    × (IsServed (list_pods answers cluster) (first_ready_pod answers cluster)
        × (counts_pods cluster ≡ true
            → (ready answers cluster ≡ ok true) ↔ ((first_ready_pod answers cluster).1 ≡ none)))
first_ready_pod-IsServed_example = first_ready_pod-IsServed answers cluster
