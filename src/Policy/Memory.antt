-- ===== src/Policy/Memory.antt =====
-- An API server whose Actions are a list: an instance of the laws, on which the tests run.
use portage.Base.{
  String, ◌==◌, ◌≡◌, refl, Bool, true, false, Option, none, some, List, [], ◌∷◌, any, arith, eq_iff,
  eq_refl, if◌then◌else◌,
}
use portage.Policy.Actions.{Action, Got, found, not_found}
use portage.Policy.Server.{Server}

abbrev pub find_action : List Action → String → Got Action
find_action [] n = not_found
find_action (a ∷ s) n = if a.name == n then found a else find_action s n

abbrev pub stored : List Action → String → Bool
stored s n = any (λ a. a.name == n) s

abbrev add_action : List Action → Action → Option String × List Action
add_action s a = if stored s a.name then (some "already exists", s) else (none, a ∷ s)

abbrev remove_action : List Action → String → List Action
remove_action [] n = []
remove_action (a ∷ s) n = if a.name == n then remove_action s n else a ∷ remove_action s n

abbrev put_action : List Action → Action → Option String × List Action
put_action s a =
    if stored s a.name then (none, a ∷ remove_action s a.name) else (some "not found", s)

pub find_action-name :
    (s : List Action) (n : String) (a : Action) → find_action s n ≡ found a → a.name ≡ n
find_action-name [] n a e = cc
find_action-name (b ∷ s) n a e = ground (arith, eq_iff b.name n, find_action-name s n a)

pub find_action-remove :
    (s : List Action) (n : String) → find_action (remove_action s n) n ≡ not_found
find_action-remove [] n = refl
find_action-remove (a ∷ s) n = ground (arith, find_action-remove s n)

pub add_action-absent :
    (s : List Action) (a : Action) → (add_action s a).0 ≡ none → stored s a.name ≡ false
add_action-absent s a e = ground arith

pub stored-add_action :
    (s : List Action) (a : Action)
    → (add_action s a).0 ≡ none
    → stored (add_action s a).1 a.name ≡ true
stored-add_action s a e = ground (arith, eq_refl a.name)

pub add_action-refused :
    (s : List Action) (a : Action) (e : String)
    → (add_action s a).0 ≡ some e
    → (add_action s a).1 ≡ s
add_action-refused s a e h = ground arith

pub find_action-add_action :
    (s : List Action) (a : Action)
    → (add_action s a).0 ≡ none
    → find_action (add_action s a).1 a.name ≡ found a
find_action-add_action s a e = ground (arith, eq_refl a.name)

pub find_action-put_action :
    (s : List Action) (a : Action)
    → (put_action s a).0 ≡ none
    → find_action (put_action s a).1 a.name ≡ found a
find_action-put_action s a e = ground (arith, eq_refl a.name)

abbrev pub memory : Server
memory = record {
  Store = List Action;
  stored = find_action;
  holds = stored;
  create = add_action;
  update = put_action;
  delete = λ s n. (none, remove_action s n);
  stored-name = find_action-name;
  create-absent = add_action-absent;
  holds-create = stored-add_action;
  create-refused = add_action-refused;
  stored-create = find_action-add_action;
  stored-update = find_action-put_action;
  stored-delete = λ s n _. find_action-remove s n;
}
