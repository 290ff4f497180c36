-- ===== src/Graph/Sync/Retry.antt =====
-- When an update with retries, and the sync of one object, succeed.
use portage.Base.{ℕ, zero, suc, ◌+◌, ◌≡◌, ◌↔◌, ◌⊎◌, Bool, true, false, none, arith, if◌then◌else◌}
use portage.Graph.Sync.{
  Answer, fine, not_found, forbidden, method_not_supported, already_exists, conflict, failure,
  Round, after_write, after_read, update_from, update_with_retry, Calls, sync_one, Item, reported,
  skip_list_err, after_create,
}

-- An attempt that met a conflict, and one whose update is taken, or finds nothing to update.
abbrev pub IsConflict : Round → Type 0
IsConflict r = (r.read ≡ fine) × (r.write ≡ conflict)

abbrev pub is_settled : Answer → Bool
is_settled fine = true
is_settled not_found = true
is_settled method_not_supported = true
is_settled _ = false

abbrev pub IsTaken : Round → Type 0
IsTaken r = (r.read ≡ fine) × (is_settled r.write ≡ true)

after_write-fine :
    (w again : Answer)
    → (after_write w again ≡ fine) ↔ ((is_settled w ≡ true) ⊎ ((w ≡ conflict) × (again ≡ fine)))
after_write-fine fine again = ground arith
after_write-fine not_found again = ground arith
after_write-fine forbidden again = ground arith
after_write-fine method_not_supported again = ground arith
after_write-fine already_exists again = ground arith
after_write-fine conflict again = ground arith
after_write-fine (failure e) again = ground arith

after_read-fine :
    (r w again : Answer)
    → (after_read r w again ≡ fine)
      ↔ ((r ≡ fine) × ((is_settled w ≡ true) ⊎ ((w ≡ conflict) × (again ≡ fine))))
after_read-fine fine w again = ground (arith, after_write-fine w again)
after_read-fine not_found w again = ground arith
after_read-fine forbidden w again = ground arith
after_read-fine method_not_supported w again = ground arith
after_read-fine already_exists w again = ground arith
after_read-fine conflict w again = ground arith
after_read-fine (failure e) w again = ground arith

-- Within `n` attempts from `i`, one is taken after conflicts only.
abbrev pub Settles : (ℕ → Round) → ℕ → ℕ → Type 0
Settles rounds i zero = ⊥
Settles rounds i (suc n) = IsTaken (rounds i) ⊎ (IsConflict (rounds i) × Settles rounds (i + 1) n)

update_from-Settles :
    (rounds : ℕ → Round) (i n : ℕ) → (update_from rounds i conflict n ≡ fine) ↔ Settles rounds i n
unfolding update_from
update_from-Settles rounds i zero = ground arith
update_from-Settles rounds i (suc n) = ground (
  arith,
  after_read-fine (rounds i).read (rounds i).write (update_from rounds (i + 1) conflict n),
  update_from-Settles rounds (i + 1) n,
)

reported-none : (a : Answer) → (reported a ≡ none) ↔ ((a ≡ fine) ⊎ (skip_list_err a ≡ true))
reported-none fine = ground arith
reported-none not_found = ground arith
reported-none forbidden = ground arith
reported-none method_not_supported = ground arith
reported-none already_exists = ground arith
reported-none conflict = ground arith
reported-none (failure e) = ground arith

-- `updateWithRetry` reports no error exactly if one of its attempts reads the object and its update
-- is taken, or finds nothing to update, and every attempt before it met a conflict.
pub update_with_retry-eq-fine_iff :
    (rounds : ℕ → Round) (n : ℕ)
    → (update_with_retry rounds (suc n) ≡ fine) ↔ Settles rounds 0 (suc n)
unfolding update_with_retry update_from
update_with_retry-eq-fine_iff rounds n = update_from-Settles rounds 0 (suc n)

-- An answer that is no error, or one that the pass skips.
abbrev pub IsSkipped : Answer → Type 0
IsSkipped a = (a ≡ fine) ⊎ (skip_list_err a ≡ true)

after_create-IsSkipped :
    (rounds : ℕ → Round) (create : Answer)
    → IsSkipped (after_create rounds create) ↔ (
        IsSkipped create
        ⊎ ((create ≡ already_exists)
            × (Settles rounds 0 4 ⊎ (skip_list_err (update_with_retry rounds 4) ≡ true))))
after_create-IsSkipped rounds already_exists =
    ground (arith, update_with_retry-eq-fine_iff rounds 3)
after_create-IsSkipped rounds fine = ground arith
after_create-IsSkipped rounds not_found = ground arith
after_create-IsSkipped rounds forbidden = ground arith
after_create-IsSkipped rounds method_not_supported = ground arith
after_create-IsSkipped rounds conflict = ground arith
after_create-IsSkipped rounds (failure e) = ground arith

-- What it takes to sync an object: to delete one that is being deleted, else to create it, or, where
-- it is there already, to settle an update in four attempts. A call that is forbidden, not supported
-- or finds nothing counts as done.
abbrev pub IsSynced : Item → Calls → Type 0
IsSynced it calls =
    ((it.deleting ≡ true) × IsSkipped calls.delete)
    ⊎ ((it.deleting ≡ false)
        × (IsSkipped calls.create
            ⊎ ((calls.create ≡ already_exists)
                × (Settles calls.rounds 0 4
                    ⊎ (skip_list_err (update_with_retry calls.rounds 4) ≡ true)))))

pick-reported :
    (deleting : Bool) (delete create : Answer) (C : Type 0)
    → IsSkipped create ↔ C
    → ((if deleting then reported delete else reported create) ≡ none)
      ↔ (((deleting ≡ true) × IsSkipped delete) ⊎ ((deleting ≡ false) × C))
pick-reported true delete create C h = ground (arith, reported-none delete)
pick-reported false delete create C h = ground (arith, reported-none create, h)

-- The sync of one object, no namespace, reports no error exactly if the destination took it: a
-- deletion, a creation, or an update within four attempts, or a call that the pass skips.
pub sync_one-eq-none_iff :
    (it : Item) (calls : Calls) → (sync_one it calls ≡ none) ↔ IsSynced it calls
unfolding sync_one
sync_one-eq-none_iff it calls =
    pick-reported it.deleting calls.delete (after_create calls.rounds calls.create) _
      (after_create-IsSkipped calls.rounds calls.create)
