-- ===== src/Database/Invariant/Deletions.antt =====
-- The statements of database/pending_account_deletions.go and the consistency of the tables.
use ppgram.Prelude.{
  ℕ, Bool, true, ◌≡◌, refl, List, [], ◌∷◌, GoString, ◌=s=◌, str_eq_iff, All, All-append, Bool-cases,
  inl, inr,
}
use ppgram.Table.{select, update, exists}
use ppgram.Table.Keys.{Distinct, Distinct-append, Distinct-update, Distinct-select}
use ppgram.Table.Rows.{All-update, All-select}
use ppgram.Database.{Time, PendingAccountDeletion, Database, user_has_id, deletion_of}
use ppgram.Database.Deletions.{
  deletion_row, reschedule, upsert_deletion, delete_deletion, delete_not_started, claim_due_rows,
  start,
}
use ppgram.Database.Invariant.{IsConsistent}

abbrev key : PendingAccountDeletion → GoString
key d = d.user_id

-- A pending deletion is one of a user.
abbrev HasUser : Database → PendingAccountDeletion → Type 0
HasUser db d = exists (user_has_id d.user_id) db.users ≡ true

with_deletions :
    (db : Database) (rows : List PendingAccountDeletion)
    → IsConsistent db
    → Distinct ◌=s=◌ key rows
    → All (HasUser db) rows
    → IsConsistent (record db { pending_account_deletions = rows })
with_deletions db rows h ids users = record {
  user_ids = h.user_ids;
  usernames = h.usernames;
  valid_names = h.valid_names;
  token_ids = h.token_ids;
  token_ids_used = h.token_ids_used;
  token_hashes = h.token_hashes;
  token_devices = h.token_devices;
  token_users = h.token_users;
  never_expires = h.never_expires;
  deletion_ids = ids;
  deletion_users = users;
}

-- An update that leaves the user alone, and a deletion.
module _ (db : Database) (p : PendingAccountDeletion → Bool) (h : IsConsistent db) where
  update-IsConsistent :
      (f : PendingAccountDeletion → PendingAccountDeletion)
      → ((d : PendingAccountDeletion) → key (f d) ≡ key d)
      → ((d : PendingAccountDeletion) → HasUser db d → HasUser db (f d))
      → IsConsistent
          (record db { pending_account_deletions = update p f db.pending_account_deletions })
  update-IsConsistent f same keeps =
      with_deletions db _ h
        (Distinct-update ◌=s=◌ str_eq_iff key p f db.pending_account_deletions same h.deletion_ids)
        (All-update (HasUser db) p f db.pending_account_deletions keeps h.deletion_users)

  select-IsConsistent :
      IsConsistent (record db { pending_account_deletions = select p db.pending_account_deletions })
  select-IsConsistent =
      with_deletions db _ h
        (Distinct-select ◌=s=◌ str_eq_iff key p db.pending_account_deletions h.deletion_ids)
        (All-select (HasUser db) p db.pending_account_deletions h.deletion_users)

pub upsert_deletion-IsConsistent :
    (user_id : GoString) (delete_at now : Time) (db : Database)
    → IsConsistent db
    → IsConsistent (upsert_deletion user_id delete_at now db).1
unfolding upsert_deletion
upsert_deletion-IsConsistent id delete_at now db h =
    elim (Bool-cases (exists (user_has_id id) db.users)) [
      | inr no_user ↦ rw no_user h
      | inl a_user ↦ elim (Bool-cases (exists (deletion_of id) db.pending_account_deletions)) [
        | inl there ↦
            rw (a_user, there)
              (update-IsConsistent db (deletion_of id) h (reschedule delete_at now) (λ d. refl)
                (λ d k. k))
        | inr absent ↦
            rw (a_user, absent)
              (with_deletions db _ h
                (Distinct-append ◌=s=◌ str_eq_iff key db.pending_account_deletions
                  (deletion_row id delete_at now) h.deletion_ids absent)
                (All-append (HasUser db) db.pending_account_deletions
                  (deletion_row id delete_at now ∷ []) h.deletion_users (a_user, tt)))
      ]
    ]

module _ (user_id : GoString) (now : Time) (db : Database) (h : IsConsistent db) where
  pub delete_deletion-IsConsistent : IsConsistent (delete_deletion user_id now db).1
  unfolding delete_deletion
  delete_deletion-IsConsistent = select-IsConsistent db _ h

  pub delete_not_started-IsConsistent : IsConsistent (delete_not_started user_id now db).1
  unfolding delete_not_started
  delete_not_started-IsConsistent = select-IsConsistent db _ h

pub claim_due_rows-IsConsistent :
    (limit : ℕ) (now : Time) (db : Database)
    → IsConsistent db
    → IsConsistent (claim_due_rows limit now db).1
unfolding claim_due_rows
claim_due_rows-IsConsistent limit now db h =
    update-IsConsistent db _ h (start now) (λ d. refl) (λ d k. k)
