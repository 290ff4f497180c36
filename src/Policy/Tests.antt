-- ===== src/Policy/Tests.antt =====
-- A Policy with an hourly backup and a live replica.
use portage.Base.{
  ℕ, ◌+◌, ◌≤◌, ◌/◌, String, ◌==◌, ◌≡◌, ◌↔◌, ◌≢◌, has_prefix, Some, i64_le, index_from, nat_text,
  at_most, refl, Bool, true, false, none, List, inl, [], ◌∷◌, map, All, arith, Fallible, ok, err,
  if◌then◌else◌, text_length, lookup,
}
use portage.Api.{is_stateless, Time, seconds}
use portage.Classify.{Inventory, key}
use portage.Classify.Pods.{namespaces, is_mover_scratch_pvc}
use portage.Kube.{PersistentVolumeClaim}
use portage.Classify.Walk.{Lister, walk}
use portage.Samples.{database, server}
use portage.Policy.{
  Policy, PolicyStatus, policy_pending, policy_unhealthy, replicate_name, auto_restore_name,
  rpo_backup_name, judge, item, with_cluster_objects, synthetic, policy_degraded,
}
use portage.Policy.Actions.{
  Action, Got, Write, not_found, nothing, creates, maybe_auto_restore, maybe_backup,
  maybe_replicate, auto_action, replicate_action,
}
use portage.Policy.Names.{rpo_backup_name_iff, rpo_backup_name-collides, names-IsReserved, slot}
use portage.Policy.Verdict.{judge-IsVerdict, HasCopy}
use portage.Policy.Server.{carry_out}
use portage.Policy.Once.{count_created, count_created_once}
use portage.Policy.Settled.{IsServed, maybe_replicate-IsSettled}
use portage.Policy.Restored.{maybe_auto_restore_iff, LostClaim}
use portage.Policy.Pass.{Answers, reconcile, IsCalledFor, reconcile-IsCalledFor}
use portage.Policy.Memory.{memory}

abbrev shop : Policy
shop = record {
  name = "shop";
  namespace = "shop";
  namespaces = [];
  backup_enabled = true;
  backup_rpo = "1h";
  replicate_enabled = true;
  restore_auto = true;
  objects_enabled = true;
}

-- 2024-01-01 00:00:00 UTC, from the start of year 1.
abbrev new_year : Time
new_year = seconds (62_135_596_800 + 1_704_067_200)

abbrev hour : ℕ
hour = seconds 3600

named : rpo_backup_name "shop" (new_year + 5) hour ≡ "backup-shop-1704067200"
unfolding rpo_backup_name at_most nat_text
named = refl

rpo_backup_name_iff_example :
    (rpo_backup_name "shop" (new_year + 5) hour ≡ rpo_backup_name "shop" (new_year + 9) hour)
    ↔ (slot (new_year + 5) hour ≡ slot (new_year + 9) hour)
unfolding nat_text
rpo_backup_name_iff_example =
    rpo_backup_name_iff "shop" (new_year + 5) (new_year + 9) hour (omega arith) (omega arith)
      (omega arith) (omega arith)

abbrev long_name : String
long_name = "a-policy-whose-name-has-more-than-fifty-six-characters-in-it"

rpo_backup_name-collides_example :
    rpo_backup_name long_name new_year hour ≡ rpo_backup_name long_name (new_year + hour) hour
rpo_backup_name-collides_example =
    rpo_backup_name-collides long_name new_year (new_year + hour) hour hour (omega arith)

names-IsReserved_example :
    (text_length (replicate_name "shop") ≤ 63)
    × (text_length (auto_restore_name "shop") ≤ 63)
    × (text_length (rpo_backup_name "web" new_year hour) ≤ 63)
    × (replicate_name "shop" ≢ auto_restore_name "shop")
    × (replicate_name "shop" ≢ rpo_backup_name "web" new_year hour)
    × (auto_restore_name "shop" ≢ rpo_backup_name "web" new_year hour)
names-IsReserved_example = names-IsReserved "shop" "shop" "web" new_year hour

abbrev parse_hour : String → Fallible ℕ
parse_hour s = if s == "1h" then ok hour else err "no duration"

abbrev absent : String → Got Action
absent n = not_found

abbrev idle : List Action → List Action
idle s = s

passes_create :
    count_created memory memory.stored parse_hour shop
      ((new_year, idle) ∷ (new_year + 7, idle) ∷ [])
      []
    ≡ 1
unfolding count_created maybe_backup at_most nat_text i64_le
passes_create = refl

count_created_once_example :
    count_created memory memory.stored parse_hour shop
      ((new_year, idle) ∷ (new_year + 7, idle) ∷ [])
      []
    ≤ 1
count_created_once_example =
    count_created_once memory memory.stored parse_hour shop hour (new_year / hour)
      ((new_year, idle) ∷ (new_year + 7, idle) ∷ []) [] refl
      ((refl, λ s n h. h), ((refl, λ s n h. h), tt))

abbrev replicated : List Action
replicated = replicate_action shop ∷ []

abbrev first_pass : Write
first_pass = maybe_replicate shop (memory.stored []) (memory.stored [])

replicates : carry_out memory first_pass [] ≡ (none, replicated)
unfolding maybe_replicate at_most
replicates = refl

maybe_replicate-IsSettled_example :
    (maybe_replicate shop (memory.stored replicated) (memory.stored replicated) ≡ nothing)
    × IsServed true (memory.stored replicated (replicate_name "shop"))
unfolding maybe_replicate at_most
maybe_replicate-IsSettled_example =
    maybe_replicate-IsSettled memory shop (memory.stored []) (memory.stored [])
      (memory.stored replicated) (memory.stored replicated) [] refl refl refl refl refl

abbrev covered : Inventory
covered = record { namespaces = "shop" ∷ []; workloads = database ∷ server ∷ [] }

abbrev before : PolicyStatus
before = record {
  phase = policy_pending;
  message = "";
  inventory = [];
  artifacts = [];
  backup_healthy = false;
  replica_lag = "9s";
  observed_generation = 1;
}

judged : (judge 2 before covered).message ≡ "backup not useful: shop/StatefulSet/db"
unfolding judge key lookup index_from
judged = refl

lost : String → String → Got (Unit {0})
lost ns pvc = not_found

maybe_auto_restore_iff_example :
    (maybe_auto_restore shop true covered lost absent ≡ creates (auto_action shop)) ↔ (
      (shop.restore_auto ≡ true)
      × (◌≡◌ {A = Bool} true true)
      × Some (λ w. (is_stateless w.class ≡ false) × LostClaim lost w) (database ∷ server ∷ [])
      × (absent (auto_restore_name "shop") ≡ not_found)
      × (auto_action shop ≡ auto_action shop))
maybe_auto_restore_iff_example =
    maybe_auto_restore_iff shop true covered lost absent (auto_action shop)

judge-IsVerdict_example :
    ((judge 2 before covered).backup_healthy ≡ true ↔ All (HasCopy []) (database ∷ server ∷ []))
    × (((judge 2 before covered).phase ≡ policy_unhealthy)
        ↔ ((judge 2 before covered).backup_healthy ≡ false))
    × (((judge 2 before covered).phase ≡ policy_degraded) ↔ (
        ((judge 2 before covered).backup_healthy ≡ true)
        × Some (λ w. w.unclassified ≡ true) (database ∷ server ∷ [])))
    × ((judge 2 before covered).inventory ≡ map item (database ∷ server ∷ []))
    × ((judge 2 before covered).artifacts ≡ [])
    × ((judge 2 before covered).replica_lag ≡ "9s")
judge-IsVerdict_example = judge-IsVerdict 2 before covered

graph_row :
    (with_cluster_objects shop covered).workloads ≡ database ∷ server ∷ synthetic "shop" ∷ []
unfolding with_cluster_objects
graph_row = refl

abbrev disk : PersistentVolumeClaim
disk = record {
  name = "disk";
  namespace = "shop";
  uid = "";
  resource_version = "";
  generation = 0;
  managed_fields = [];
  labels = [];
  annotations = [];
  owner_references = [];
  volume_name = "";
  storage_class_name = none;
  selector = none;
  data_source = none;
  data_source_ref = none;
  phase = "Bound";
}

abbrev one_claim : Lister
one_claim = record {
  stateful_sets = λ ns. ok [];
  deployments = λ ns. ok [];
  daemon_sets = λ ns. ok [];
  pvcs = λ ns. ok (disk ∷ []);
}

abbrev answers : Answers
answers = record {
  connected = true;
  engines = [];
  source = one_claim;
  claim = lost;
  read = absent;
  latest = absent;
  lag = λ n. not_found;
  status_error = none;
  now = new_year;
  parse = parse_hour;
}

abbrev plain : Policy
plain = record shop { objects_enabled = false }

abbrev copied : PolicyStatus
copied = record before {
  artifacts =
      record {
        workload = "shop/PersistentVolumeClaim/disk";
        useful = true;
        size_bytes = 70_000;
        artifact_id = "";
        message = "";
      }
      ∷ [];
}

started : Some (λ w. w ≡ creates (auto_action plain)) (reconcile answers plain 2 copied).writes
unfolding reconcile walk judge key lookup index_from namespaces is_mover_scratch_pvc has_prefix lost
started = inl refl

reconcile-IsCalledFor_example :
    (inv : Inventory) × (walk [] one_claim ("shop" ∷ []) ≡ ok inv)
    × IsCalledFor answers plain copied (with_cluster_objects plain inv)
unfolding namespaces
reconcile-IsCalledFor_example =
    reconcile-IsCalledFor answers plain 2 copied (auto_action plain) refl started
