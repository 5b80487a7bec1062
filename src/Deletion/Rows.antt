-- ===== src/Deletion/Rows.antt =====
-- The rows of pending_account_deletions after `Upsert` and `CancelIfNotStarted` of
-- database/pending_account_deletions.go.
use ppgram.Prelude.{
  Bool, true, false, not, ◌&&◌, List, [], ◌∷◌, ◌++◌, none, some, GoString, ◌≡◌, refl, ap, sym, ◌∙◌,
  subst, arith, Bool-cases, inl, inr, ◌=s=◌, str_eq_iff, str_eq_refl,
}
use ppgram.Table.{find, select, update, exists}
use ppgram.Table.Rows.{find-append_new, exists-select}
use ppgram.Table.Keys.{Distinct}
use ppgram.Errors.{db_failure}
use ppgram.Database.{Time, Database, PendingAccountDeletion, done, user_has_id, deletion_of}
use ppgram.Database.Deletions.{
  deletion_row, reschedule, to_micros, upsert_deletion, delete_not_started, started_exists, started,
}
use ppgram.Backend.{Backend}
use ppgram.Backend.Returns.{Returns, >>=-Returns, pure-Returns}
use ppgram.Repository.{check_started}
use ppgram.Repository.Returns.{reads-Returns}

-- A row of the user that waits for the time, and that the worker has not taken.
pub record Waits (user_id : GoString) (delete_at : Time) (rows : List PendingAccountDeletion)
    : Type 0 where
  pub row : PendingAccountDeletion
  pub found : find (deletion_of user_id) rows ≡ some row
  pub time : row.delete_at ≡ to_micros delete_at
  pub not_started : row.started_at ≡ none

module _ (user_id : GoString) (delete_at now : Time) where
  update-Waits :
      (rows : List PendingAccountDeletion)
      → exists (deletion_of user_id) rows ≡ true
      → Waits user_id delete_at (update (deletion_of user_id) (reschedule delete_at now) rows)
  unfolding update exists find
  update-Waits [] h = cc
  update-Waits (d ∷ rows) h = elim (Bool-cases (deletion_of user_id d)) [
    | inl here ↦ record {
      row = reschedule delete_at now d;
      found = rw (here, here) refl;
      time = refl;
      not_started = refl;
    }
    | inr other ↦
        let later = update-Waits rows (ground arith) in
        record {
          row = later.row;
          found = rw (other, other) later.found;
          time = later.time;
          not_started = later.not_started;
        }
  ]

  -- The answer is a row of the same time, and the other tables are as before.
  pub upsert_deletion-Waits :
      (db : Database) {row : PendingAccountDeletion}
      → (upsert_deletion user_id delete_at now db).0 ≡ done row
      → Waits user_id delete_at
          (upsert_deletion user_id delete_at now db).1.pending_account_deletions
        × (row.delete_at ≡ to_micros delete_at)
        × ((upsert_deletion user_id delete_at now db).1.users ≡ db.users)
        × ((upsert_deletion user_id delete_at now db).1.user_tokens ≡ db.user_tokens)
  unfolding upsert_deletion
  upsert_deletion-Waits db {row} h =
      elim (Bool-cases (not (exists (user_has_id user_id) db.users))) [
        | inl no_user ↦ cc (rw no_user at h)
        | inr a_user ↦
            elim (Bool-cases (exists (deletion_of user_id) db.pending_account_deletions)) [
              | inl there ↦
                  let same : deletion_row user_id delete_at now ≡ row =
                    cc (rw (a_user, there) at h) in
                  rw (a_user, there)
                    (
                      update-Waits db.pending_account_deletions there,
                      sym (ap (λ (d : PendingAccountDeletion). d.delete_at) same),
                      refl,
                      refl,
                    )
              | inr absent ↦
                  let same : deletion_row user_id delete_at now ≡ row =
                    cc (rw (a_user, absent) at h) in
                  let row_waits : Waits user_id delete_at
                      (db.pending_account_deletions ++ deletion_row user_id delete_at now ∷ []) =
                    record {
                      row = deletion_row user_id delete_at now;
                      found =
                          find-append_new (deletion_of user_id) db.pending_account_deletions
                            (deletion_row user_id delete_at now) absent (str_eq_refl user_id);
                      time = refl;
                      not_started = refl;
                    } in
                  rw (a_user, absent)
                    (
                      row_waits,
                      sym (ap (λ (d : PendingAccountDeletion). d.delete_at) same),
                      refl,
                      refl,
                    )
            ]
      ]

-- Rows of the table after a cancellation.
module _ (user_id : GoString) where
  abbrev pub not_taken : PendingAccountDeletion → Bool
  not_taken d = deletion_of user_id d && not (started d)

  abbrev taken : PendingAccountDeletion → Bool
  taken d = deletion_of user_id d && started d

  -- Those of the user that are left are those that the worker has taken.
  pub exists-select-not_taken :
      (rows : List PendingAccountDeletion)
      → exists (deletion_of user_id) (select (λ d. not (not_taken d)) rows) ≡ exists taken rows
  unfolding exists select
  exists-select-not_taken [] = refl
  exists-select-not_taken (d ∷ rows) = ground (arith, exists-select-not_taken rows)

  taken-of_user :
      (rows : List PendingAccountDeletion)
      → exists (deletion_of user_id) rows ≡ false
      → (exists taken rows ≡ false) × (exists not_taken rows ≡ false)
  unfolding exists
  taken-of_user [] h = (refl, refl)
  taken-of_user (d ∷ rows) h =
      (ground (arith, taken-of_user rows), ground (arith, taken-of_user rows))

  -- A user has one row at most.
  not_taken-taken :
      (rows : List PendingAccountDeletion)
      → Distinct ◌=s=◌ (λ d. d.user_id) rows
      → exists not_taken rows ≡ true
      → exists taken rows ≡ false
  unfolding exists
  not_taken-taken [] distinct h = refl
  not_taken-taken (d ∷ rows) distinct h = elim (Bool-cases (deletion_of user_id d)) [
    | inl here ↦
        let only : exists (deletion_of user_id) rows ≡ false =
          subst (λ x. exists (deletion_of x) rows ≡ false) ((str_eq_iff d.user_id user_id).0 here)
            distinct.0 in
        let (none_taken, none_waiting) = taken-of_user rows only in ground arith
    | inr other ↦ ground (arith, not_taken-taken rows distinct.1)
  ]

  pub check_started-Returns :
      (deleted cancelled in_progress : Bool) (b : Backend) {b' : Backend}
      → Distinct ◌=s=◌ (λ d. d.user_id) b.db.pending_account_deletions
      → in_progress ≡ false
      → exists not_taken b.db.pending_account_deletions ≡ deleted
      → (c : Backend) → c.db ≡ (delete_not_started user_id b.db_now b.db).1
      → Returns (check_started user_id deleted) c (cancelled, in_progress) b'
      → (exists taken b.db.pending_account_deletions ≡ false) × (c.db ≡ b'.db)
  unfolding check_started
  check_started-Returns true cancelled in_progress b distinct calm waiting c after h = (
    not_taken-taken b.db.pending_account_deletions distinct waiting,
    ap (λ (x : Backend). x.db) (pure-Returns h).1,
  )
  check_started-Returns false cancelled in_progress b {b'} distinct calm waiting c after h =
      let (found, asked, h1) = >>=-Returns _ _ h in
      let (same, stop) = pure-Returns h1 in
      let (answer, still) =
        reads-Returns db_failure (started_exists user_id)
          (exists taken c.db.pending_account_deletions) c (unfold started_exists in refl) asked in
      let none_taken : exists taken c.db.pending_account_deletions ≡ false =
        answer ∙ ap (λ (p : Bool × Bool). p.1) same ∙ calm in
      let rows : c.db.pending_account_deletions
          ≡ select (λ d. not (not_taken d)) b.db.pending_account_deletions =
        ap (λ (x : Database). x.pending_account_deletions) after
        ∙ unfold delete_not_started in refl in
      (
        sym (
              exists-select taken (λ d. not (not_taken d)) b.db.pending_account_deletions
                (λ d h. ground arith))
            ∙ subst (λ r. exists taken r ≡ false) rows none_taken,
        sym (ap (λ (x : Backend). x.db) still) ∙ ap (λ (x : Backend). x.db) stop,
      )
