-- ===== src/Policy/Settled.antt =====
-- The live replica of a Policy: what a pass writes, and that the next one leaves it.
use mathlib.Core.Path.{subst}
use portage.Base.{
  String, ◌==◌, ◌≡◌, refl, sym, ap, ◌∙◌, Bool, true, false, not, none, some, arith, inl, inr,
  Bool-cases, Map, get, insert, lookup, lookup-insert, eq_refl, or_zero, if◌then◌else◌, ◌⊎◌,
}
use portage.Controller.Resume.{is_replicate}
use portage.Policy.{Policy, replicate_name}
use portage.Policy.Actions.{
  Action, Got, found, not_found, refused, Write, nothing, fails, creates, updates, deletes,
  live_label, maybe_replicate, stop_replica, keep_replica, replicate_action,
}
use portage.Policy.Server.{Server, carry_out}

abbrev pub is_live : Action → Bool
is_live a = get "" live_label a.labels == "true"

get-insert : (k v : String) (m : Map String) → get "" k (insert k v m) ≡ v
unfolding get
get-insert k v m =
    ap (or_zero "") (lookup-insert k v m k ∙ ap (λ b. if b then some v else lookup k m) (eq_refl k))

relabelled : (a : Action) → is_live (record a { labels = insert live_label "true" a.labels }) ≡ true
relabelled a = ap (λ v. v == "true") (get-insert live_label "true" a.labels)

fresh-IsLive :
    (pol : Policy)
    → keep_replica pol (found (replicate_action pol)) (found (replicate_action pol)) ≡ nothing
unfolding get lookup
fresh-IsLive pol = refl

-- What is stored under the reserved name of a Policy, by whether it replicates: where it does, an
-- Action that is labelled or of another type; where it does not, none or one of another type.
abbrev pub IsServed : Bool → Got Action → Type 0
IsServed true (found a) = (is_replicate a.type ≡ false) ⊎ (is_live a ≡ true)
IsServed true _ = ⊥
IsServed false (found a) = is_replicate a.type ≡ false
IsServed false not_found = Unit
IsServed false (refused _) = ⊥

keep-IsServed :
    (pol : Policy) (reply : Got Action)
    → keep_replica pol reply reply ≡ nothing
    → IsServed true reply
keep-IsServed pol (found a) e = ground arith
keep-IsServed pol not_found e = cc
keep-IsServed pol (refused m) e = cc

stop-IsServed : (reply : Got Action) → stop_replica reply ≡ nothing → IsServed false reply
stop-IsServed (found a) e = ground arith
stop-IsServed not_found e = tt
stop-IsServed (refused m) e = cc

module _ (server : Server) (pol : Policy) where
  open server use {
    Store, stored, create, update, delete, stored-name, stored-create, stored-update, stored-delete,
  }

  abbrev wanted : Bool → Got Action → Write
  wanted enabled reply = if not enabled then stop_replica reply else keep_replica pol reply reply

  -- A pass that sees what is then stored asks for nothing.
  abbrev IsCalm : (Got Action → Write) → String → Store → Write → Type 0
  IsCalm f n s w =
      ((carry_out server w s).0 ≡ none) → f (stored (carry_out server w s).1 n) ≡ nothing

  after_write :
      (f : Got Action → Write) (n : String) (s : Store) (w : Write)
      → f (stored s n) ≡ w
      → IsCalm f n s w
      → IsCalm f n s (f (stored s n))
  after_write f n s w e = subst (IsCalm f n s) (sym e)

  after_nothing :
      (f : Got Action → Write) (n : String) (s : Store)
      → f (stored s n) ≡ nothing
      → IsCalm f n s (f (stored s n))
  after_nothing f n s e = after_write f n s nothing e (λ _. e)

  after_change :
      (f : Got Action → Write) (n : String) (s : Store) (w : Write) (reply : Got Action)
      → f (stored s n) ≡ w
      → ((carry_out server w s).0 ≡ none → stored (carry_out server w s).1 n ≡ reply)
      → f reply ≡ nothing
      → IsCalm f n s (f (stored s n))
  after_change f n s w reply e there quiet =
      after_write f n s w e (λ good. ap f (there good) ∙ quiet)

  stop-IsCalm :
      (n : String) (s : Store) (reply : Got Action)
      → stored s n ≡ reply
      → IsCalm stop_replica n s (stop_replica (stored s n))
  stop-IsCalm n s not_found e = after_nothing stop_replica n s (ap stop_replica e)
  stop-IsCalm n s (refused m) e =
      after_write stop_replica n s (fails m) (ap stop_replica e) (λ good. cc)
  stop-IsCalm n s (found a) e = elim (Bool-cases (is_replicate a.type)) [
    | inl ours ↦
        after_change stop_replica n s (deletes a.name) not_found (ap stop_replica e ∙ ground arith)
          (λ gone.
            ap (stored (delete s a.name).1) (sym (stored-name s n a e))
            ∙ stored-delete s a.name gone)
          refl
    | inr theirs ↦ after_nothing stop_replica n s (ap stop_replica e ∙ ground arith)
  ]

  abbrev keeps : Got Action → Write
  keeps reply = keep_replica pol reply reply

  keep-IsCalm :
      (s : Store) (reply : Got Action)
      → stored s (replicate_name pol.name) ≡ reply
      → IsCalm keeps (replicate_name pol.name) s (keeps (stored s (replicate_name pol.name)))
  keep-IsCalm s (refused m) e = after_write keeps _ s (fails m) (ap keeps e) (λ good. cc)
  keep-IsCalm s not_found e =
      after_change keeps _ s (creates (replicate_action pol)) (found (replicate_action pol))
        (ap keeps e) (stored-create s (replicate_action pol)) (fresh-IsLive pol)
  keep-IsCalm s (found a) e = elim (Bool-cases (is_replicate a.type)) [
    | inr theirs ↦ after_nothing keeps _ s (ap keeps e ∙ ground arith)
    | inl ours ↦ elim (Bool-cases (is_live a)) [
      | inl live ↦ after_nothing keeps _ s (ap keeps e ∙ ground arith)
      | inr dead ↦
          let a' = record a { labels = insert live_label "true" a.labels } in
          after_change keeps _ s (updates a') (found a') (ap keeps e ∙ ground arith)
            (λ put.
              ap (stored (update s a').1) (sym (stored-name s _ a e)) ∙ stored-update s a' put)
            (ground (arith, relabelled a))
    ]
  ]

  caught_up :
      (s : Store)
      → (carry_out server (maybe_replicate pol (stored s) (stored s)) s).0 ≡ none
      → let s' = (carry_out server (maybe_replicate pol (stored s) (stored s)) s).1 in
        (maybe_replicate pol (stored s') (stored s') ≡ nothing)
        × IsServed pol.replicate_enabled (stored s' (replicate_name pol.name))
  unfolding maybe_replicate
  caught_up s = elim (Bool-cases pol.replicate_enabled) [
    | inl on ↦ rw on (λ good.
        let quiet = keep-IsCalm s (stored s (replicate_name pol.name)) refl good in
        (quiet, keep-IsServed pol _ quiet))
    | inr off ↦ rw off (λ good.
        let quiet =
          stop-IsCalm (replicate_name pol.name) s (stored s (replicate_name pol.name)) refl good in
        (quiet, stop-IsServed _ quiet))
  ]

  -- A view of the Actions shows what is stored under the reserved name.
  abbrev pub IsCurrent : (String → Got Action) → Store → Type 0
  IsCurrent view s = view (replicate_name pol.name) ≡ stored s (replicate_name pol.name)

  -- What a pass writes depends on the two views only under the reserved name.
  maybe_replicate-current :
      (view latest : String → Got Action) (s : Store)
      → IsCurrent view s
      → IsCurrent latest s
      → maybe_replicate pol (stored s) (stored s) ≡ maybe_replicate pol view latest
  unfolding maybe_replicate
  maybe_replicate-current view latest s h k = rw (h, k) refl

  -- A pass over the live replica that meets no error, and whose two reads show what is stored under the
  -- reserved name, leaves nothing for a later one to write whose reads show what is then stored: where
  -- the Policy replicates, an Action is stored under the reserved name that carries the label or is
  -- of another type; where it does not, none is, or one of another type. A read that is behind what is
  -- stored is out of what is stated.
  pub maybe_replicate-IsSettled :
      (view latest view' latest' : String → Got Action) (s : Store)
      → IsCurrent view s
      → IsCurrent latest s
      → (carry_out server (maybe_replicate pol view latest) s).0 ≡ none
      → IsCurrent view' (carry_out server (maybe_replicate pol view latest) s).1
      → IsCurrent latest' (carry_out server (maybe_replicate pol view latest) s).1
      → (maybe_replicate pol view' latest' ≡ nothing)
        × IsServed pol.replicate_enabled (
            stored
              (carry_out server (maybe_replicate pol view latest) s).1
              (replicate_name pol.name))
  maybe_replicate-IsSettled view latest view' latest' s = λ h k.
      subst
        (λ w.
          (carry_out server w s).0 ≡ none
          → IsCurrent view' (carry_out server w s).1
          → IsCurrent latest' (carry_out server w s).1
          → (maybe_replicate pol view' latest' ≡ nothing)
            × IsServed pol.replicate_enabled
                (stored (carry_out server w s).1 (replicate_name pol.name)))
        (maybe_replicate-current view latest s h k)
        (λ good h' k'.
          let (quiet, served) = caught_up s good in
          (sym (maybe_replicate-current view' latest' _ h' k') ∙ quiet, served))
