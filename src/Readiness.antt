-- ===== src/Readiness.antt =====
-- pkg/workloads/pods.go: when a workload is ready, and the pod that a command runs in.
pub mod Served
mod Tests
use portage.Base.{
  ℕ, String, ◌<>◌, ◌==◌, Bool, true, false, not, ◌&&◌, Option, none, some, List, [], ◌∷◌, map, keep,
  any, if◌then◌else◌, Fallible, ok, err, nat_beq, leb,
}
use portage.Classify.Pods.{seen}
use portage.Classify.{Workload, key}

-- A pod by what is read of it: its conditions as pairs of type and status, and the names of its owners
-- and containers.
pub record Pod : Type 0 where
  pub name : String
  pub phase : String
  pub conditions : List (String × String)
  pub owners : List String
  pub containers : List String

-- A ReplicaSet, with the kinds and names of its owners.
pub record ReplicaSet : Type 0 where
  pub name : String
  pub owners : List (String × String)

-- What the reads of the workload's namespace answer: of a StatefulSet or a Deployment the count that it
-- asks for, where it does, and the count that is ready; of a DaemonSet the latter. No count is
-- negative.
pub record Answers : Type 0 where
  pub stateful_set : Fallible (Option ℕ × ℕ)
  pub deployment : Fallible (Option ℕ × ℕ)
  pub daemon_set : Fallible ℕ
  pub pods : Fallible (List Pod)
  pub replica_sets : Fallible (List ReplicaSet)

-- `isPodReady`
unfoldable pub is_pod_ready : Pod → Bool
is_pod_ready p =
    p.phase == "Running" && any (λ (type, status). type == "Ready" && status == "True") p.conditions

-- `containerName`
abbrev container_of : List String → String
container_of [] = ""
container_of (c ∷ cs) = c

abbrev pub container_name : Pod → String
container_name p = container_of p.containers

-- `ownedBy`
unfoldable pub owned_by : String → String → ReplicaSet → Bool
owned_by kind name rs = any (λ (k, n). k == kind && n == name) rs.owners

-- `podOwnedBy`
unfoldable pub pod_owned_by : List String → Pod → Bool
pod_owned_by names p = any (λ o. seen o names) p.owners

abbrev pub with_sets : Workload → Fallible (List ReplicaSet) → Fallible (List String)
with_sets w (err e) = err e
with_sets w (ok sets) = ok (w.name ∷ map (λ rs. rs.name) (keep (owned_by "Deployment" w.name) sets))

-- `owners`
unfoldable pub owners_of : Answers → Workload → Fallible (List String)
unfolding owned_by
owners_of a w = if w.kind == "Deployment" then with_sets w a.replica_sets else ok (w.name ∷ [])

abbrev pub among : List Pod → Fallible (List String) → Fallible (List Pod)
among pods (err e) = err e
among pods (ok names) = ok (keep (pod_owned_by names) pods)

abbrev pub on_pods : Answers → Workload → Fallible (List Pod) → Fallible (List Pod)
on_pods a w (err e) = err ("list pods in " <> w.namespace <> ": " <> e)
on_pods a w (ok pods) = among pods (owners_of a w)

-- `ListPods`
unfoldable pub list_pods : Answers → Workload → Fallible (List Pod)
unfolding owners_of pod_owned_by
list_pods a w = on_pods a w a.pods

abbrev pub of_counts : Fallible (Option ℕ × ℕ) → Fallible Bool
of_counts (err e) = err e
of_counts (ok (none, ready)) = ok (leb 1 ready)
of_counts (ok (some want, ready)) = ok (if nat_beq want 0 then false else leb 1 ready)

abbrev pub of_daemon : Fallible ℕ → Fallible Bool
of_daemon (err e) = err e
of_daemon (ok ready) = ok (leb 1 ready)

abbrev pub of_pods : Fallible (List Pod) → Fallible Bool
of_pods (err e) = err e
of_pods (ok pods) = ok (any is_pod_ready pods)

-- `Ready`
unfoldable pub ready : Answers → Workload → Fallible Bool
unfolding list_pods is_pod_ready
ready a w =
    if w.kind == "StatefulSet"
    then of_counts a.stateful_set
    else if w.kind == "Deployment"
    then of_counts a.deployment
    else if w.kind == "DaemonSet"
    then of_daemon a.daemon_set
    else of_pods (list_pods a w)

-- A pod with the name of a container, if there is one, and an error, if there is one.
abbrev pub Found : Type 0
Found = Option (Pod × String) × Option String

unfoldable pub first_ready : List Pod → Option Pod
unfolding is_pod_ready
first_ready [] = none
first_ready (p ∷ ps) = if not (is_pod_ready p) then first_ready ps else some p

abbrev pub or_first : Workload → List Pod → Option Pod → Found
or_first w pods (some p) = (some (p, container_name p), none)
or_first w [] none = (none, some ("no pods for " <> key w))
or_first w (p ∷ ps) none = (some (p, container_name p), some (key w <> " has no Ready pod"))

abbrev pub among_pods : Workload → Fallible (List Pod) → Found
among_pods w (err e) = (none, some e)
among_pods w (ok pods) = or_first w pods (first_ready pods)

-- `FirstReadyPod`
unfoldable pub first_ready_pod : Answers → Workload → Found
unfolding list_pods first_ready key
first_ready_pod a w = among_pods w (list_pods a w)
