-- ===== src/Deletion/Worker.antt =====
-- The worker of server/auth/delete.go and the users of other deletions than those that are due.
use ppgram.Prelude.{
  ℕ, Bool, true, false, not, ◌&&◌, List, [], ◌∷◌, map, Option, none, some, GoString, ◌≡◌, refl, ap,
  sym, ◌∙◌, subst, arith, All, Bool-cases, inl, inr, ◌=s=◌, str_eq_iff, ◌==◌, if◌then◌else◌,
}
use ppgram.Text.{trim_space}
use ppgram.Username.{normalize_username, valid_username}
use ppgram.Table.{find, exists}
use ppgram.Table.Rows.{find-select}
use ppgram.Errors.{
  Error, Result, ok, err, is_user_not_found, db_failure, default_db_not_initialized,
}
use ppgram.Database.{Time, Database, Statement, PendingAccountDeletion, user_has_id}
use ppgram.Database.Users.{delete_user, drop_user}
use ppgram.Database.Deletions.{claim_due_rows, delete_deletion, is_due, start}
use ppgram.Backend.{
  Backend, Fault, fine, lost_request, lost_reply, pure, raise, refuse_if, handle, handle_with,
  query, run_statement, run_with,
}
use ppgram.Backend.Within.{Within, >>=-Within, handle-Within}
use ppgram.Backend.Returns.{Returns, query-Returns}
use ppgram.Repository.{row_or, delete_user_by_id, delete_by_user_id, claim_due}
use ppgram.Cache.Tables.{remove_username-Spares}
use ppgram.Password.{Crypto}
use ppgram.Auth.{default_deps}
use ppgram.Deletion.{
  remove_username_from_cache, after_failed_delete, delete_account, delete_accounts,
  process_due_account_deletions, ignore,
}
use ppgram.Deletion.Claim.{claimed-eq, All-due_rows}

either_still :
    (t a : Bool) (e : Error) (b : Backend)
    → (let r : Result Bool × Backend = if t then (ok a, b) else (err e, b) in r).1 ≡ b
either_still true a e b = refl
either_still false a e b = refl

module _ (id : GoString) where
  -- The user's row is the same.
  abbrev SameUser : Backend → Backend → Type 0
  SameUser b c = find (user_has_id id) c.db.users ≡ find (user_has_id id) b.db.users

  SameUser-trans : (a b c : Backend) → SameUser a b → SameUser b c → SameUser a c
  SameUser-trans a b c h k = k ∙ h

  pure-SameUser {ℓ} : {A : Type ℓ} (a : A) → Within SameUser (pure a)
  unfolding pure
  pure-SameUser a b = refl

  raise-SameUser {ℓ} : (A : Type ℓ) (e : Error) → Within SameUser (raise {A = A} e)
  unfolding raise
  raise-SameUser A e b = refl

  refuse_if-SameUser : (t : Bool) (e : Error) → Within SameUser (refuse_if t e)
  unfolding refuse_if
  refuse_if-SameUser true e b = refl
  refuse_if-SameUser false e b = refl

  run_with-SameUser {ℓ} :
      {A : Type ℓ} (faults : List Fault) (f : Statement A) (b : Backend)
      → find (user_has_id id) (f b.db_now b.db).1.users ≡ find (user_has_id id) b.db.users
      → SameUser b (run_with faults f b).1
  unfolding run_with
  run_with-SameUser [] f b h = h
  run_with-SameUser (fine ∷ rest) f b h = h
  run_with-SameUser (lost_request ∷ rest) f b h = refl
  run_with-SameUser (lost_reply ∷ rest) f b h = h

  query-SameUser {ℓ} :
      {A : Type ℓ} (e : Error) (f : Statement A)
      → ((now : Time) (db : Database)
          → find (user_has_id id) (f now db).1.users ≡ find (user_has_id id) db.users)
      → Within SameUser (query e f)
  unfolding query run_statement
  query-SameUser e f h b = run_with-SameUser b.faults f b (h b.db_now b.db)

  row_or-SameUser {ℓ} : {A : Type ℓ} (e : Error) (o : Option A) → Within SameUser (row_or e o)
  unfolding row_or
  row_or-SameUser {A = A} e none = raise-SameUser A e
  row_or-SameUser e (some a) = pure-SameUser a

  -- Deleting another user.
  delete_user-other :
      (other : GoString)
      → (other =s= id) ≡ false
      → (now : Time) (db : Database)
      → find (user_has_id id) (delete_user other now db).1.users ≡ find (user_has_id id) db.users
  unfolding delete_user drop_user
  delete_user-other other differs now db =
      find-select (user_has_id id) (λ u. not (user_has_id other u)) db.users
        λ u is. elim (Bool-cases (u.id =s= other)) [
          | inl same ↦ cc (rw (← (str_eq_iff u.id other).0 same, is) at differs)
          | inr not_same ↦ ap not not_same
        ]

  delete_user_by_id-SameUser :
      (user_id : GoString)
      → (trim_space user_id =s= id) ≡ false
      → Within SameUser (delete_user_by_id user_id)
  unfolding delete_user_by_id
  delete_user_by_id-SameUser user_id differs =
      >>=-Within SameUser SameUser-trans _ _ (refuse_if-SameUser _ _) λ _.
        >>=-Within SameUser SameUser-trans _ _
          (query-SameUser _ _ (delete_user-other (trim_space user_id) differs)) (row_or-SameUser _)

  delete_deletion-users :
      (user_id : GoString) (now : Time) (db : Database)
      → find (user_has_id id) (delete_deletion user_id now db).1.users
        ≡ find (user_has_id id) db.users
  unfolding delete_deletion
  delete_deletion-users user_id now db = refl

  claim_due_rows-users :
      (limit : ℕ) (now : Time) (db : Database)
      → find (user_has_id id) (claim_due_rows limit now db).1.users ≡ find (user_has_id id) db.users
  unfolding claim_due_rows
  claim_due_rows-users limit now db = refl

  delete_by_user_id-SameUser : (user_id : GoString) → Within SameUser (delete_by_user_id user_id)
  unfolding delete_by_user_id
  delete_by_user_id-SameUser user_id =
      >>=-Within SameUser SameUser-trans _ _ (refuse_if-SameUser _ _)
        λ _. query-SameUser _ _ (delete_deletion-users (trim_space user_id))

  after_failed_delete-SameUser :
      (item : PendingAccountDeletion) (e : Error) → Within SameUser (after_failed_delete item e)
  unfolding after_failed_delete
  after_failed_delete-SameUser item e = elim (Bool-cases (is_user_not_found e)) [
    | inl gone ↦ rw gone (
        handle-Within SameUser SameUser-trans _ _ _ (delete_by_user_id-SameUser item.user_id)
          (λ _. pure-SameUser tt) pure-SameUser)
    | inr other ↦ rw other (pure-SameUser tt)
  ]

  remove_username_from_cache-SameUser :
      (crypto : Crypto) (redis : Bool) (username : GoString)
      → Within SameUser (remove_username_from_cache crypto redis username)
  unfolding remove_username_from_cache
  remove_username_from_cache-SameUser crypto false username = pure-SameUser tt
  remove_username_from_cache-SameUser crypto true username =
      let name = normalize_username crypto.lower_high username in
      elim (Bool-cases (not (valid_username name))) [
        | inl invalid ↦ rw invalid (pure-SameUser tt)
        | inr valid ↦ rw valid (
            handle-Within SameUser SameUser-trans _ _ _
              (λ b.
                ap (λ (x : Database). find (user_has_id id) x.users)
                  (remove_username-Spares name b).0)
              (λ _. pure-SameUser tt) pure-SameUser)
      ]

  -- The deletion is of another user.
  abbrev OfOther : PendingAccountDeletion → Type 0
  OfOther d = (trim_space d.user_id =s= id) ≡ false

  delete_accounts-SameUser :
      (crypto : Crypto) (redis : Bool) (claimed : List PendingAccountDeletion)
      → All OfOther claimed
      → Within SameUser (delete_accounts crypto redis claimed)
  unfolding delete_accounts delete_account
  delete_accounts-SameUser crypto redis [] h = pure-SameUser tt
  delete_accounts-SameUser crypto redis (item ∷ claimed) h =
      >>=-Within SameUser SameUser-trans _ _
        (handle-Within SameUser SameUser-trans _ _ _ (delete_user_by_id-SameUser item.user_id h.0)
          (after_failed_delete-SameUser item) (remove_username_from_cache-SameUser crypto redis))
        λ _. delete_accounts-SameUser crypto redis claimed h.1

  claim_due-SameUser : (limit : ℕ) → Within SameUser (claim_due limit)
  unfolding claim_due
  claim_due-SameUser limit = query-SameUser _ _ (claim_due_rows-users _)

  -- A deletion of the user that is due at an instant.
  abbrev due_now : Time → PendingAccountDeletion → Bool
  due_now now d = trim_space d.user_id =s= id && is_due now d

  All-not_exists :
      (p : PendingAccountDeletion → Bool) (rows : List PendingAccountDeletion)
      → exists p rows ≡ false
      → All (λ d. p d ≡ false) rows
  unfolding exists
  All-not_exists p [] h = tt
  All-not_exists p (d ∷ rows) h = (ground arith, All-not_exists p rows (ground arith))

  All-map_start_other :
      (now : Time) (due : List PendingAccountDeletion)
      → All OfOther due
      → All OfOther (map (start now) due)
  All-map_start_other now [] h = tt
  All-map_start_other now (d ∷ due) h = (h.0, All-map_start_other now due h.1)

  claim_due-OfOther :
      (limit : ℕ) (b : Backend) {b' : Backend} {claimed : List PendingAccountDeletion}
      → exists (due_now b.db_now) b.db.pending_account_deletions ≡ false
      → Returns (claim_due limit) b claimed b'
      → All OfOther claimed
  unfolding claim_due
  claim_due-OfOther limit b {b'} {claimed} none_due h =
      let n = if limit == 0 then 50 else limit in
      let (answer, state) = query-Returns db_failure (claim_due_rows n) b h in
      rw (← claimed-eq n b.db_now b.db claimed answer) (
        All-map_start_other b.db_now _ (
          All-due_rows (λ d. due_now b.db_now d ≡ false) OfOther n b.db_now
            b.db.pending_account_deletions (λ d is not_due. ground arith)
            (All-not_exists (due_now b.db_now) b.db.pending_account_deletions none_due)))

  handle_claimed :
      (crypto : Crypto) (redis : Bool) (r : Result (List PendingAccountDeletion) × Backend)
      (b : Backend)
      → SameUser b r.1
      → ((claimed : List PendingAccountDeletion) → r ≡ (ok claimed, r.1) → All OfOther claimed)
      → SameUser b (handle_with r ignore (delete_accounts crypto redis)).1
  unfolding handle_with pure
  handle_claimed crypto redis (ok claimed, c) b same others =
      delete_accounts-SameUser crypto redis claimed (others claimed refl) c ∙ same
  handle_claimed crypto redis (err e, c) b same others = same

  default_deps-still : (b : Backend) → (default_deps b).1 ≡ b
  unfolding default_deps
  default_deps-still b = either_still b.db_ready b.redis_ready default_db_not_initialized b

  handle_deps :
      (crypto : Crypto) (r : Result Bool × Backend) (b : Backend)
      → r.1 ≡ b
      → exists (due_now b.db_now) b.db.pending_account_deletions ≡ false
      → SameUser b
          (handle_with r ignore
            λ redis. handle (claim_due 50) ignore λ claimed. delete_accounts crypto redis claimed).1
  unfolding handle_with pure handle
  handle_deps crypto (ok redis, c) b still none_due =
      let none_due' =
        subst (λ (x : Backend). exists (due_now x.db_now) x.db.pending_account_deletions ≡ false)
          (sym still) none_due in
      unfold handle_with in
      handle_claimed crypto redis (claim_due 50 c) c (claim_due-SameUser 50 c)
        (λ claimed r. claim_due-OfOther 50 c none_due' r)
      ∙ ap (λ (x : Backend). find (user_has_id id) x.db.users) still
  handle_deps crypto (err e, c) b still none_due =
      ap (λ (x : Backend). find (user_has_id id) x.db.users) still

  -- Whatever the connections do, a run of the deletion worker leaves the row of a user as it is
  -- if no deletion of that user's id, trimmed, is due and not started when it starts.
  pub process_due_account_deletions-SameUser :
      (crypto : Crypto) (b : Backend)
      → exists (due_now b.db_now) b.db.pending_account_deletions ≡ false
      → find (user_has_id id) (process_due_account_deletions crypto b).1.db.users
        ≡ find (user_has_id id) b.db.users
  unfolding process_due_account_deletions handle
  process_due_account_deletions-SameUser crypto b none_due =
      handle_deps crypto (default_deps b) b (default_deps-still b) none_due
