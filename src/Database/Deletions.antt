-- ===== src/Database/Deletions.antt =====
-- The statements of database/pending_account_deletions.go.
use ppgram.Prelude.{
  ℕ, ◌*◌, ◌/◌, Bool, not, ◌&&◌, List, [], ◌∷◌, ◌++◌, map, take, none, some, GoString, ◌=s=◌, leb,
  if◌then◌else◌,
}
use ppgram.Table.{select, update, exists}
use ppgram.Database.{
  Time, PendingAccountDeletion, done, failed, Statement, user_has_id, deletion_of, is_null,
}

-- TIMESTAMPTZ counts microseconds.
abbrev pub to_micros : Time → Time
to_micros t = t / 1000 * 1000

abbrev pub deletion_row : GoString → Time → Time → PendingAccountDeletion
deletion_row user_id delete_at now = record {
  user_id = user_id;
  scheduled_at = now;
  delete_at = to_micros delete_at;
  started_at = none;
}

-- ON CONFLICT (user_id) DO UPDATE SET …
abbrev pub reschedule : Time → Time → PendingAccountDeletion → PendingAccountDeletion
reschedule delete_at now d = record d {
  delete_at = to_micros delete_at;
  scheduled_at = now;
  started_at = none;
}

-- INSERT INTO pending_account_deletions … ON CONFLICT (user_id) DO UPDATE … RETURNING. Either way
-- the row that is returned reads the same.
unfoldable pub upsert_deletion : GoString → Time → Statement PendingAccountDeletion
upsert_deletion user_id delete_at now db =
    if not (exists (user_has_id user_id) db.users)
    then (failed, db)
    else if exists (deletion_of user_id) db.pending_account_deletions
    then (
      done (deletion_row user_id delete_at now),
      record db {
        pending_account_deletions =
            update (deletion_of user_id) (reschedule delete_at now) db.pending_account_deletions;
      },
    )
    else (
      done (deletion_row user_id delete_at now),
      record db {
        pending_account_deletions =
            db.pending_account_deletions ++ deletion_row user_id delete_at now ∷ [];
      },
    )

-- DELETE FROM pending_account_deletions WHERE user_id = $1
unfoldable pub delete_deletion : GoString → Statement (Unit {0})
delete_deletion user_id now db = (
  done tt,
  record db {
    pending_account_deletions =
        select (λ d. not (deletion_of user_id d)) db.pending_account_deletions;
  },
)

-- SELECT EXISTS (… WHERE user_id = $1)
unfoldable pub deletion_exists : GoString → Statement Bool
deletion_exists user_id now db =
    (done (exists (deletion_of user_id) db.pending_account_deletions), db)

abbrev pub started : PendingAccountDeletion → Bool
started d = not (is_null d.started_at)

-- DELETE … WHERE user_id = $1 AND started_at IS NULL, with whether there was such a row.
unfoldable pub delete_not_started : GoString → Statement Bool
delete_not_started user_id now db = (
  done (exists (λ d. deletion_of user_id d && not (started d)) db.pending_account_deletions),
  record db {
    pending_account_deletions =
        select (λ d. not (deletion_of user_id d && not (started d))) db.pending_account_deletions;
  },
)

-- SELECT EXISTS (… WHERE user_id = $1 AND started_at IS NOT NULL)
unfoldable pub started_exists : GoString → Statement Bool
started_exists user_id now db =
    (done (exists (λ d. deletion_of user_id d && started d) db.pending_account_deletions), db)

-- ORDER BY delete_at ASC
unfoldable pub insert_by_delete_at :
    PendingAccountDeletion → List PendingAccountDeletion → List PendingAccountDeletion
insert_by_delete_at d [] = d ∷ []
insert_by_delete_at d (e ∷ rest) =
    let later = insert_by_delete_at d rest in
    if leb d.delete_at e.delete_at then d ∷ e ∷ rest else e ∷ later

unfoldable pub order_by_delete_at : List PendingAccountDeletion → List PendingAccountDeletion
unfolding insert_by_delete_at
order_by_delete_at [] = []
order_by_delete_at (d ∷ rest) = insert_by_delete_at d (order_by_delete_at rest)

-- WHERE delete_at <= now() AND started_at IS NULL
unfoldable pub is_due : Time → PendingAccountDeletion → Bool
is_due now d = leb d.delete_at now && not (started d)

-- The rows of the common table expression `due`. No other transaction holds a lock.
unfoldable pub due_rows : ℕ → Time → List PendingAccountDeletion → List PendingAccountDeletion
due_rows limit now rows = take limit (order_by_delete_at (select (is_due now) rows))

abbrev pub start : Time → PendingAccountDeletion → PendingAccountDeletion
start now d = record d { started_at = some now }

-- p.user_id = due.user_id, for a row of `due`
unfoldable pub is_among : List PendingAccountDeletion → PendingAccountDeletion → Bool
is_among due d = exists (λ e. d.user_id =s= e.user_id) due

-- WITH due AS (…) UPDATE … SET started_at = now() … RETURNING
unfoldable pub claim_due_rows : ℕ → Statement (List PendingAccountDeletion)
claim_due_rows limit now db =
    let due = due_rows limit now db.pending_account_deletions in
    (
      done (map (start now) due),
      record db {
        pending_account_deletions = update (is_among due) (start now) db.pending_account_deletions;
      },
    )
