-- ===== src/Deletion/Turn.antt =====
-- The round of the worker of server/auth/delete.go in which the turn of a user comes.
use ppgram.Prelude.{
  Bool, true, false, not, List, [], ◌∷◌, Option, none, some, GoString, codes, is_empty, ◌≡◌, refl,
  ap, sym, ◌∙◌, subst, arith, Bool-cases, inl, inr, ◌=s=◌, str_eq_iff,
}
use ppgram.Text.{trim_space}
use ppgram.Username.{normalize_username, valid_username}
use ppgram.Table.{find, exists}
use ppgram.Errors.{
  Error, Result, ok, err, is_user_not_found, db_failure, db_missing_required_fields, user_not_found,
}
use ppgram.Database.{Statement, done, PendingAccountDeletion, user_has_id}
use ppgram.Database.Users.{delete_user, drop_user, username_of}
use ppgram.Backend.{
  Backend, Exec, Fault, pure, raise, handle, handle_with, query, run_statement, run_with,
  outcome_result,
}
use ppgram.Backend.Within.{Within, >>=-Within}
use ppgram.Repository.{row_or, delete_user_by_id, delete_by_user_id}
use ppgram.Cache.{remove_username}
use ppgram.Password.{Crypto}
use ppgram.Deletion.{
  remove_username_from_cache, after_failed_delete, delete_account, delete_accounts, ignore,
}
use ppgram.Backend.Returns.{>>=-step}
use ppgram.Auth.Refusals.{refuse_if->>-step}
use ppgram.Deletion.Progress.{
  Gone, Onward, Onward-trans, pure-Onward, drop_user-gone, after_failed_delete-Onward,
  remove_username_from_cache-Onward, delete_account-Onward,
}

-- A step whose errors are all ignored.
abbrev NeverFails : Exec (Unit {0}) → Type 0
NeverFails m = (b : Backend) → m b ≡ (ok tt, (m b).1)

handle_with-ok {ℓ} :
    {A : Type ℓ} (r : Result A × Backend) (on_error : Error → Exec (Unit {0}))
    (f : A → Exec (Unit {0}))
    → ((e : Error) → NeverFails (on_error e))
    → ((a : A) → NeverFails (f a))
    → handle_with r on_error f ≡ (ok tt, (handle_with r on_error f).1)
unfolding handle_with
handle_with-ok (ok a, b) on_error f h k = k a b
handle_with-ok (err e, b) on_error f h k = h e b

handle-NeverFails {ℓ} :
    {A : Type ℓ} (m : Exec A) (on_error : Error → Exec (Unit {0})) (f : A → Exec (Unit {0}))
    → ((e : Error) → NeverFails (on_error e))
    → ((a : A) → NeverFails (f a))
    → NeverFails (handle m on_error f)
unfolding handle
handle-NeverFails m on_error f h k b = handle_with-ok (m b) on_error f h k

pure-NeverFails : NeverFails (pure tt)
unfolding pure
pure-NeverFails b = refl

after_failed_delete-NeverFails :
    (item : PendingAccountDeletion) (e : Error) → NeverFails (after_failed_delete item e)
unfolding after_failed_delete
after_failed_delete-NeverFails item e = elim (Bool-cases (is_user_not_found e)) [
  | inl gone ↦ rw gone (
      handle-NeverFails (delete_by_user_id item.user_id) ignore pure (λ x. pure-NeverFails)
        (λ a. pure-NeverFails))
  | inr other ↦ rw other pure-NeverFails
]

remove_username_from_cache-NeverFails :
    (crypto : Crypto) (redis : Bool) (username : GoString)
    → NeverFails (remove_username_from_cache crypto redis username)
unfolding remove_username_from_cache
remove_username_from_cache-NeverFails crypto false username = pure-NeverFails
remove_username_from_cache-NeverFails crypto true username =
    let name = normalize_username crypto.lower_high username in
    elim (Bool-cases (not (valid_username name))) [
      | inl invalid ↦ rw invalid pure-NeverFails
      | inr valid ↦ rw valid (
          handle-NeverFails (remove_username name) ignore pure (λ x. pure-NeverFails)
            (λ a. pure-NeverFails))
    ]

delete_account-NeverFails :
    (crypto : Crypto) (redis : Bool) (item : PendingAccountDeletion)
    → NeverFails (delete_account crypto redis item)
unfolding delete_account
delete_account-NeverFails crypto redis item =
    handle-NeverFails (delete_user_by_id item.user_id) (after_failed_delete item)
      (remove_username_from_cache crypto redis) (after_failed_delete-NeverFails item)
      (remove_username_from_cache-NeverFails crypto redis)

-- A statement on connections that work.
run_with-quiet {ℓ} :
    {A : Type ℓ} (faults : List Fault) (f : Statement A) (b : Backend)
    → faults ≡ []
    → run_with faults f b ≡ ((f b.db_now b.db).0, record b { db = (f b.db_now b.db).1 })
unfolding run_with
run_with-quiet [] f b h = refl
run_with-quiet (x ∷ rest) f b h = cc h

-- One that gives rows.
pub query-quiet {ℓ} :
    {A : Type ℓ} (on_unique : Error) (f : Statement A) (a : A) (b : Backend)
    → b.faults ≡ []
    → (f b.db_now b.db).0 ≡ done a
    → query on_unique f b ≡ (ok a, record b { db = (f b.db_now b.db).1 })
unfolding query run_statement outcome_result
query-quiet on_unique f a b quiet h =
    ap (λ r. (outcome_result on_unique r.0, r.1)) (run_with-quiet b.faults f b quiet)
    ∙ ap (λ o. (outcome_result on_unique o, record b { db = (f b.db_now b.db).1 })) h

row_or-state {ℓ} : {A : Type ℓ} (e : Error) (o : Option A) (b : Backend) → (row_or e o b).1 ≡ b
unfolding row_or raise pure
row_or-state e none b = refl
row_or-state e (some a) b = refl

delete_user_by_id-state :
    (user_id : GoString) (b : Backend)
    → b.faults ≡ []
    → is_empty (trim_space user_id) ≡ false
    → (delete_user_by_id user_id b).1 ≡ record b { db = drop_user (trim_space user_id) b.db }
unfolding delete_user_by_id
delete_user_by_id-state user_id b quiet given =
    let o = username_of (find (user_has_id (trim_space user_id)) b.db.users) in
    let after : Backend = record b { db = drop_user (trim_space user_id) b.db } in
    let asked : query db_failure (delete_user (trim_space user_id)) b ≡ (ok o, after) =
      query-quiet db_failure (delete_user (trim_space user_id)) o b quiet
        (unfold delete_user in refl)
      ∙ unfold delete_user in refl in
    ap (λ r. r.1)
      (refuse_if->>-step (is_empty (trim_space user_id))
          (db_missing_required_fields (codes "user_id")) _ b given
        ∙ >>=-step _ (row_or user_not_found) asked)
    ∙ row_or-state user_not_found o after

-- The deletion is of the user.
abbrev pub of_user : GoString → PendingAccountDeletion → Bool
of_user id d = trim_space d.user_id =s= id

module _ (id : GoString) (crypto : Crypto) where
  handle_with-Onward {ℓ} :
      {A : Type ℓ} (r : Result A × Backend) (on_error : Error → Exec (Unit {0}))
      (f : A → Exec (Unit {0}))
      → ((e : Error) → Within (Onward id) (on_error e))
      → ((a : A) → Within (Onward id) (f a))
      → Onward id r.1 (handle_with r on_error f).1
  unfolding handle_with
  handle_with-Onward (ok a, b) on_error f h k = k a b
  handle_with-Onward (err e, b) on_error f h k = h e b

  -- The user of a deletion, deleted at its turn.
  delete_account-Gone :
      (redis : Bool) (item : PendingAccountDeletion) (b : Backend)
      → b.faults ≡ []
      → is_empty id ≡ false
      → trim_space item.user_id ≡ id
      → Gone id (delete_account crypto redis item b).1
  unfolding delete_account handle
  delete_account-Gone redis item b quiet given same =
      let state =
        delete_user_by_id-state item.user_id b quiet (ap (λ s. is_empty s) same ∙ given) in
      let gone : Gone id (delete_user_by_id item.user_id b).1 =
        ap (λ (c : Backend). exists (user_has_id id) c.db.users) state
        ∙ ap (λ (s : GoString). exists (user_has_id id) (drop_user s b.db).users) same
        ∙ unfold drop_user in drop_user-gone id b.db.users in
      (handle_with-Onward (delete_user_by_id item.user_id b) (after_failed_delete item)
          (remove_username_from_cache crypto redis) (after_failed_delete-Onward id item)
          (remove_username_from_cache-Onward id crypto redis)).1
        gone

  delete_accounts-Onward :
      (redis : Bool) (claimed : List PendingAccountDeletion)
      → Within (Onward id) (delete_accounts crypto redis claimed)
  unfolding delete_accounts
  delete_accounts-Onward redis [] = pure-Onward id tt
  delete_accounts-Onward redis (item ∷ claimed) =
      >>=-Within (Onward id) (Onward-trans id) _ _ (delete_account-Onward id crypto redis item)
        λ _. delete_accounts-Onward redis claimed

  pub delete_accounts-Gone :
      (redis : Bool) (claimed : List PendingAccountDeletion) (b : Backend)
      → b.faults ≡ []
      → is_empty id ≡ false
      → exists (of_user id) claimed ≡ true
      → Gone id (delete_accounts crypto redis claimed b).1
  unfolding delete_accounts exists
  delete_accounts-Gone redis [] b quiet given h = cc h
  delete_accounts-Gone redis (item ∷ claimed) b quiet given h =
      let c : Backend = (delete_account crypto redis item b).1 in
      let goes_on =
        >>=-step (delete_account crypto redis item) (λ _. delete_accounts crypto redis claimed)
          (delete_account-NeverFails crypto redis item b) in
      subst (λ (r : Result (Unit {0}) × Backend). Gone id r.1) (sym goes_on)
        (elim (Bool-cases (of_user id item)) [
          | inl here ↦ (delete_accounts-Onward redis claimed c).1 (
              delete_account-Gone redis item b quiet given
                ((str_eq_iff (trim_space item.user_id) id).0 here))
          | inr other ↦
              delete_accounts-Gone redis claimed c
                ((delete_account-Onward id crypto redis item b).0 quiet) given (ground arith)
        ])
