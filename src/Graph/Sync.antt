-- ===== src/Graph/Sync.antt =====
-- pkg/clusterobjects/sync.go: the pass that brings the objects to the destination, the update with
-- retries, and the attestation. What one object's sync answers is an argument of the pass.
pub mod Order
pub mod Retry
pub mod Attested
use portage.Base.{
  ℕ, zero, suc, ◌+◌, String, ◌==◌, ◌<>◌, Bool, true, false, not, ◌&&◌, ◌||◌, Option, none, some,
  List, [], ◌∷◌, if◌then◌else◌, any, map, is_empty, str_lt, ltb, nat_beq, nat_text, sort, Map,
  lookup, or_zero, get,
}
use portage.Graph.{Ref}

-- An object of the graph, by what the pass reads of it. `deleting` is `it.Deleting`, which `List`
-- sets from the object.
pub record Item : Type 0 where
  pub ref : Ref
  pub namespace : String
  pub name : String
  pub kind : String
  pub deleting : Bool

-- `applyOrder`: its ranks plus one, as they start at -1 and only their order is read.
abbrev pub apply_order : Map ℕ
apply_order =
    ("tenants", 0)
    ∷ ("namespaces", 1)
    ∷ ("customresourcedefinitions", 2)
    ∷ ("clusterroles", 3)
    ∷ ("clusterrolebindings", 4)
    ∷ ("serviceaccounts", 5)
    ∷ ("secrets", 6)
    ∷ ("configmaps", 7)
    ∷ ("roles", 8)
    ∷ ("rolebindings", 9)
    ∷ ("services", 10)
    ∷ ("ingresses", 11)
    ∷ ("networkpolicies", 12)
    ∷ []

-- `rank`
unfoldable pub rank : String → ℕ
unfolding get lookup
rank resource = get 51 resource apply_order

abbrev pub rank_of : Item → ℕ
rank_of it = rank it.ref.resource

-- The test of the sort: by rank, then by name.
unfoldable pub item_before : Item → Item → Bool
unfolding rank
item_before a b =
    if not (nat_beq (rank_of a) (rank_of b))
    then ltb (rank_of a) (rank_of b)
    else str_lt a.name b.name

-- The loop of the pass: every object is synced, and the first error is kept.
unfoldable pub sync_from {ℓ} : {E : Type ℓ} → (Item → Option E) → Option E → List Item → Option E
sync_from sync_item first [] = first
sync_from sync_item none (it ∷ items) = sync_from sync_item (sync_item it) items
sync_from sync_item (some e) (it ∷ items) = sync_from sync_item (some e) items

-- `Sync`, given the sync of one object.
unfoldable pub sync {ℓ} : {E : Type ℓ} → (Item → Option E) → List Item → Option E
unfolding sync_from item_before sort
sync sync_item items = sync_from sync_item none (sort item_before items)

-- What a call of the API server answers, by the tests of the `errors` package; `fine` is nil.
pub data Answer : Type 0 where
  fine not_found forbidden method_not_supported already_exists conflict : Answer
  failure : String → Answer

-- The answers to the read and to the update of each attempt.
pub record Round : Type 0 where
  pub read : Answer
  pub write : Answer

abbrev pub after_write : Answer → Answer → Answer
after_write fine again = fine
after_write not_found again = fine
after_write method_not_supported again = fine
after_write conflict again = again
after_write error again = error

abbrev pub after_read : Answer → Answer → Answer → Answer
after_read fine write again = after_write write again
after_read error write again = error

-- `updateWithRetry`, by the answers of its calls: `left` more attempts, from the attempt `i`; `last`
-- is the error so far. What an update writes is left out.
unfoldable pub update_from : (ℕ → Round) → ℕ → Answer → ℕ → Answer
update_from rounds i last zero = last
update_from rounds i last (suc left) =
    after_read (rounds i).read (rounds i).write (update_from rounds (i + 1) conflict left)

unfoldable pub update_with_retry : (ℕ → Round) → ℕ → Answer
unfolding update_from
update_with_retry rounds attempts = update_from rounds 0 fine attempts

-- `skipListErr`
abbrev pub skip_list_err : Answer → Bool
skip_list_err forbidden = true
skip_list_err not_found = true
skip_list_err method_not_supported = true
skip_list_err _ = false

-- The answers that the sync of one object meets.
pub record Calls : Type 0 where
  pub delete : Answer
  pub create : Answer
  pub rounds : ℕ → Round

abbrev pub reported : Answer → Option Answer
reported fine = none
reported answer = if skip_list_err answer then none else some answer

abbrev pub after_create : (ℕ → Round) → Answer → Answer
after_create rounds already_exists = update_with_retry rounds 4
after_create rounds answer = answer

-- `syncOne` of an object that is no namespace: the error, less the text that it is wrapped in.
unfoldable pub sync_one : Item → Calls → Option Answer
unfolding update_with_retry
sync_one it calls =
    if it.deleting then reported calls.delete else reported (after_create calls.rounds calls.create)

-- The `status` of a condition, a text or a Boolean.
pub data Status : Type 0 where
  text : String → Status
  flag : Bool → Status

pub record Condition : Type 0 where
  pub kind : String
  pub status : Status

abbrev holds_true : Status → Bool
holds_true (text s) = s == "True"
holds_true (flag b) = b

-- `crdEstablished`
unfoldable pub crd_established : List Condition → Bool
crd_established = any (λ c. c.kind == "Established" && holds_true c.status)

-- What `Get` answers on the destination: the object's conditions, or the error.
pub data Reply : Type 0 where
  found : List Condition → Reply
  absent : String → Reply

-- The counters of `Attest`.
pub record Tally : Type 0 where
  pub live : ℕ
  pub missing : ℕ
  pub first : String

-- An object that is missing: the first one is reported.
abbrev pub note_missing : String → Tally → Tally
note_missing message t = record t {
  missing = t.missing + 1;
  first = if t.first == "" then message else t.first;
}

abbrev pub note_reply : Item → Tally → Reply → Tally
note_reply it t (absent e) = note_missing (it.kind <> "/" <> it.name <> ": " <> e) t
note_reply it t (found conditions) =
    if it.ref.resource == "customresourcedefinitions" && not (crd_established conditions)
    then note_missing (it.name <> " CRD not Established") t
    else t

-- The body of the loop of `Attest`.
unfoldable pub count_item : (Item → Reply) → Tally → Item → Tally
unfolding crd_established
count_item ask t it =
    let next = note_reply it (record t { live = t.live + 1 }) (ask it) in
    if it.deleting then t else next

unfoldable pub tally_from : (Item → Reply) → Tally → List Item → Tally
unfolding count_item
tally_from ask t [] = t
tally_from ask t (it ∷ items) = tally_from ask (count_item ask t it) items

abbrev pub judge : Tally → Bool × String
judge t =
    if nat_beq t.live 0
    then (true, "no cluster objects")
    else if not (nat_beq t.missing 0)
    then (
      false,
      nat_text t.missing <> "/" <> nat_text t.live <> " dest objects missing (" <> t.first <> ")",
    )
    else (true, nat_text t.live <> " dest objects attested")

-- `Attest`
unfoldable pub attest_items : (Item → Reply) → List Item → Bool × String
unfolding tally_from nat_text
attest_items ask items =
    if is_empty items
    then (true, "no cluster objects")
    else judge (tally_from ask (record { live = 0; missing = 0; first = "" }) items)
