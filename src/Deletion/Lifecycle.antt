-- ===== src/Deletion/Lifecycle.antt =====
-- `ScheduleAccountDeletion` and `CancelAccountDeletion` of server/auth/delete.go.
use ppgram.Prelude.{
  ℕ, ◌+◌, Bool, true, false, some, GoString, ◌≡◌, refl, ap, sym, ◌∙◌, subst, arith, ◌=s=◌,
}
use ppgram.Text.{trim_space}
use ppgram.Username.{normalize_username, valid_username}
use ppgram.Username.Normal.{trim_space_of_valid}
use ppgram.Table.{find, exists}
use ppgram.Table.Keys.{Distinct}
use ppgram.Errors.{ok, db_failure}
use ppgram.Database.{Time, Database, User, PendingAccountDeletion, done, user_has_name, deletion_of}
use ppgram.Database.Deletions.{to_micros, upsert_deletion, delete_not_started}
use ppgram.Backend.{Backend, Exec, time_now, ◌>>=◌, continue}
use ppgram.Backend.Returns.{Returns, >>=-Returns, pure-Returns, query-Returns, refuse_if-Returns}
use ppgram.Repository.{upsert_pending_deletion, cancel_if_not_started}
use ppgram.Repository.Returns.{Untouched, refuse_if->>-Returns}
use ppgram.Password.{Crypto, verify_password}
use ppgram.Auth.Steps.{default_deps->>=-Returns, found_user-Returns, check_password->>-Returns}
use ppgram.Deletion.{
  account_deletion_delay, unix, verify_delete_credentials, schedule_account_deletion,
  cancel_account_deletion,
}
use ppgram.Deletion.Rows.{
  Waits, upsert_deletion-Waits, not_taken, exists-select-not_taken, check_started-Returns,
}

module _ (crypto : Crypto) (username password : GoString) where
  abbrev name : GoString
  name = normalize_username crypto.lower_high username

  -- The user whose name and password were given.
  pub record Verified (b : Backend) (user : User) : Type 0 where
    pub found : find (user_has_name name) b.db.users ≡ some user
    pub right : verify_password crypto password user.password_hash ≡ ok true

  verify_delete_credentials-Returns :
      (b : Backend) {b' : Backend} {user : User}
      → Returns (verify_delete_credentials crypto username password) b user b'
      → Verified b user × Untouched b b'
  unfolding verify_delete_credentials
  verify_delete_credentials-Returns b {b'} {user} h =
      let (checked, h1) = refuse_if->>-Returns _ _ _ h in
      let (found_user, asked, h2) = >>=-Returns _ _ h1 in
      let (found, still) = found_user-Returns name b asked in
      let (right, h3) = check_password->>-Returns _ _ h2 in
      let (same, stop) = pure-Returns h3 in
      let valid : valid_username name ≡ true = ground arith in
      let found' = rw (trim_space_of_valid name valid) at found in
      let verified : Verified b found_user = record { found = found'; right = right } in
      (subst (Verified b) same verified, subst (Untouched b) stop still)

  -- What a scheduled deletion leaves behind.
  pub record Scheduled (b b' : Backend) (timestamp : ℕ) : Type 0 where
    pub user : User
    pub verified : Verified b user
    pub waits :
        Waits (trim_space user.id) (b.now + account_deletion_delay) b'.db.pending_account_deletions
    pub timestamp_of_row : timestamp ≡ unix (to_micros (b.now + account_deletion_delay))
    pub users : b'.db.users ≡ b.db.users
    pub user_tokens : b'.db.user_tokens ≡ b.db.user_tokens

  upsert_pending_deletion-Returns :
      (user_id : GoString) (delete_at : Time) (b : Backend) {b' : Backend}
      {row : PendingAccountDeletion}
      → Returns (upsert_pending_deletion user_id delete_at) b row b'
      → let upserted = upsert_deletion (trim_space user_id) delete_at b.db_now b.db in
        (upserted.0 ≡ done row) × (b' ≡ record b { db = upserted.1; faults = b'.faults })
  unfolding upsert_pending_deletion
  upsert_pending_deletion-Returns user_id delete_at b h =
      let (id_given, h1) = refuse_if->>-Returns _ _ _ h in
      let (time_given, asked) = refuse_if->>-Returns _ _ _ h1 in query-Returns db_failure _ b asked

  time_now->>=-Returns {ℓ} :
      {A : Type ℓ} (f : Time → Exec A) {b b' : Backend} {a : A}
      → Returns (time_now >>= f) b a b'
      → Returns (f b.now) b a b'
  unfolding time_now ◌>>=◌ continue
  time_now->>=-Returns f h = h

  -- The last step of a schedule, from where only faults are gone.
  Scheduled-steps :
      (b c b' : Backend) (user : User) (row : PendingAccountDeletion)
      → Verified b user
      → Untouched b c
      → Returns (upsert_pending_deletion user.id (c.now + account_deletion_delay)) c row b'
      → Scheduled b b' (unix row.delete_at)
  Scheduled-steps b c b' user row verified still h =
      let (answer, state) = upsert_pending_deletion-Returns user.id _ c h in
      let (waits, time, users, tokens) =
        upsert_deletion-Waits (trim_space user.id) (c.now + account_deletion_delay) c.db_now c.db
          answer in
      let same_now : c.now ≡ b.now = ap (λ (x : Backend). x.now) still in
      record {
        user = user;
        verified = verified;
        waits = rw (← same_now, state) waits;
        timestamp_of_row = rw (← same_now) (ap unix time);
        users =
            ap (λ (x : Backend). x.db.users) state ∙ users ∙ ap (λ (x : Backend). x.db.users) still;
        user_tokens =
            ap (λ (x : Backend). x.db.user_tokens) state
            ∙ tokens
            ∙ ap (λ (x : Backend). x.db.user_tokens) still;
      }

  -- A successful request for a deletion has verified the user's name and password; afterwards the
  -- user has a row that is not started and due 30 days after the server's clock, the timestamp is
  -- that of the row, and users and tokens are as before.
  pub schedule_account_deletion-Scheduled :
      (b b' : Backend) (timestamp : ℕ)
      → Returns (schedule_account_deletion crypto username password) b timestamp b'
      → Scheduled b b' timestamp
  unfolding schedule_account_deletion
  schedule_account_deletion-Scheduled b b' timestamp h =
      let (ready, h1) = default_deps->>=-Returns _ h in
      let (user, checked, h2) = >>=-Returns _ _ h1 in
      let (verified, still) = verify_delete_credentials-Returns b checked in
      let c = (verify_delete_credentials crypto username password b).1 in
      let (row, asked, h3) =
        >>=-Returns (upsert_pending_deletion user.id (c.now + account_deletion_delay)) _
          (time_now->>=-Returns _ h2) in
      let (same, stop) = pure-Returns h3 in
      subst (Scheduled b b') same (
        Scheduled-steps b c b' user row verified still (
          subst
            (λ x.
              Returns (upsert_pending_deletion user.id (c.now + account_deletion_delay)) c row x)
            stop asked))

  -- What a successful cancellation leaves behind.
  pub record Cancelled (b b' : Backend) : Type 0 where
    pub user : User
    pub verified : Verified b user
    pub none_left :
        exists (deletion_of (trim_space user.id)) b'.db.pending_account_deletions ≡ false
    pub users : b'.db.users ≡ b.db.users
    pub user_tokens : b'.db.user_tokens ≡ b.db.user_tokens

  cancel_if_not_started-Returns :
      (user_id : GoString) (b : Backend) {b' : Backend} {cancelled in_progress : Bool}
      → Distinct ◌=s=◌ (λ d. d.user_id) b.db.pending_account_deletions
      → in_progress ≡ false
      → Returns (cancel_if_not_started user_id) b (cancelled, in_progress) b'
      → (exists (deletion_of (trim_space user_id)) b'.db.pending_account_deletions ≡ false)
        × (b'.db.users ≡ b.db.users)
        × (b'.db.user_tokens ≡ b.db.user_tokens)
  unfolding cancel_if_not_started
  cancel_if_not_started-Returns user_id b {b'} {cancelled} {in_progress} distinct fine h =
      let (id_given, h1) = refuse_if->>-Returns _ _ _ h in
      let (deleted, asked, h2) = >>=-Returns _ _ h1 in
      let (answer, state) = query-Returns db_failure _ b asked in
      let after = ap (λ (x : Backend). x.db) state in
      let waiting : exists (not_taken (trim_space user_id)) b.db.pending_account_deletions
          ≡ deleted =
        unfold delete_not_started in cc answer in
      let (none_taken, stop) =
        check_started-Returns (trim_space user_id) deleted cancelled in_progress b distinct fine
          waiting _ after h2 in
      let db : b'.db ≡ (delete_not_started (trim_space user_id) b.db_now b.db).1 =
        sym stop ∙ after in
      (
        ap (λ (x : Database). exists (deletion_of (trim_space user_id)) x.pending_account_deletions)
              db
            ∙ unfold delete_not_started in
              (exists-select-not_taken (trim_space user_id) b.db.pending_account_deletions
                ∙ none_taken),
        ap (λ (x : Database). x.users) db ∙ unfold delete_not_started in refl,
        ap (λ (x : Database). x.user_tokens) db ∙ unfold delete_not_started in refl,
      )

  -- If every user has at most one pending deletion, a successful cancellation has verified the
  -- user's name and password; afterwards the user has no pending deletion, and users and tokens
  -- are as before.
  pub cancel_account_deletion-Cancelled :
      (b b' : Backend)
      → Distinct ◌=s=◌ (λ d. d.user_id) b.db.pending_account_deletions
      → Returns (cancel_account_deletion crypto username password) b tt b'
      → Cancelled b b'
  unfolding cancel_account_deletion
  cancel_account_deletion-Cancelled b b' distinct h =
      let (ready, h1) = default_deps->>=-Returns _ h in
      let (user, checked, h2) = >>=-Returns _ _ h1 in
      let (verified, still) = verify_delete_credentials-Returns b checked in
      let c = (verify_delete_credentials crypto username password b).1 in
      let (flags, asked, h3) = >>=-Returns _ _ h2 in
      let (not_in_progress, stop) = refuse_if-Returns _ _ h3 in
      let rows_same = ap (λ (x : Backend). x.db.pending_account_deletions) still in
      let (none_left, users, tokens) =
        cancel_if_not_started-Returns user.id c
          (subst (Distinct ◌=s=◌ (λ (d : PendingAccountDeletion). d.user_id)) (sym rows_same)
            distinct)
          not_in_progress
          (subst (λ x. Returns (cancel_if_not_started user.id) c flags x) stop asked) in
      record {
        user = user;
        verified = verified;
        none_left = none_left;
        users = users ∙ ap (λ (x : Backend). x.db.users) still;
        user_tokens = tokens ∙ ap (λ (x : Backend). x.db.user_tokens) still;
      }
