-- ===== src/Policy/Server.antt =====
-- The API server as the Policy reconciler meets it, for the Actions of one namespace, and how a
-- write that a pass asks for is carried out on it.
use portage.Base.{ℕ, String, ◌≡◌, Bool, true, false, Option, none, some}
use portage.Policy.Actions.{
  Action, Got, found, not_found, Write, nothing, fails, creates, updates, deletes,
}

-- A call gives the error, `none` where there is none, and what is stored after it; `stored` is what the
-- server has under a name. The laws are what the Kubernetes API documents of its writes: a name is
-- stored once, a create of a stored name is refused, and a write without an error is stored. They say
-- nothing of what a client reads: the reconciler reads from the manager's cache, which may be behind.
pub record Server : Type 1 where
  pub Store : Type 0
  pub stored : Store → String → Got Action
  pub holds : Store → String → Bool
  pub create : Store → Action → Option String × Store
  pub update : Store → Action → Option String × Store
  pub delete : Store → String → Option String × Store
  pub stored-name : (s : Store) (n : String) (a : Action) → stored s n ≡ found a → a.name ≡ n
  pub create-absent : (s : Store) (a : Action) → (create s a).0 ≡ none → holds s a.name ≡ false
  pub holds-create :
      (s : Store) (a : Action) → (create s a).0 ≡ none → holds (create s a).1 a.name ≡ true
  pub create-refused :
      (s : Store) (a : Action) (e : String) → (create s a).0 ≡ some e → (create s a).1 ≡ s
  pub stored-create :
      (s : Store) (a : Action) → (create s a).0 ≡ none → stored (create s a).1 a.name ≡ found a
  pub stored-update :
      (s : Store) (a : Action) → (update s a).0 ≡ none → stored (update s a).1 a.name ≡ found a
  pub stored-delete :
      (s : Store) (n : String) → (delete s n).0 ≡ none → stored (delete s n).1 n ≡ not_found

module _ (server : Server) where
  open server use {Store, create, update, delete}

  -- The error of a pass and what is stored after it.
  abbrev pub carry_out : Write → Store → Option String × Store
  carry_out nothing s = (none, s)
  carry_out (fails e) s = (some e, s)
  carry_out (creates a) s = create s a
  carry_out (updates a) s = update s a
  carry_out (deletes n) s = delete s n

  -- A call without an error has made one.
  abbrev pub made : Option String → ℕ
  made none = 1
  made (some _) = 0

  -- How many Actions a pass creates.
  abbrev pub created : Write → Store → ℕ
  created (creates a) s = made (create s a).0
  created _ s = 0
