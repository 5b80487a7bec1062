-- ===== src/Auth/Refusals.antt =====
-- How `LoginByCredentials` of server/auth/auth.go refuses credentials, on connections that work.
use ppgram.Prelude.{
  Bool, true, false, not, [], codes, ◌∷◌, Option, none, some, GoString, is_empty, ◌≡◌, ◌≢◌, refl,
  ap, ◌∙◌, Bool-cases, inl, inr,
}
use ppgram.Text.{trim_space}
use ppgram.Username.{valid_username}
use ppgram.Username.Normal.{trim_space_of_valid}
use ppgram.Table.{find, exists}
use ppgram.Errors.{
  Error, Result, ok, err, invalid_credentials, account_pending_deletion, is_user_not_found,
  user_not_found, db_failure, db_missing_required_fields,
}
use ppgram.Database.{Statement, done, User, user_has_name, deletion_of}
use ppgram.Database.Users.{select_user_by_username}
use ppgram.Database.Deletions.{deletion_exists}
use ppgram.Backend.{
  Backend, Exec, pure, raise, refuse_if, handle, handle_with, query, run_statement, run_with,
  outcome_result, continue, ◌>>=◌, ◌>>◌,
}
use ppgram.Backend.Returns.{>>=-step, >>=-stop}
use ppgram.Repository.{row_or, get_user_by_username, exists_active_by_user_id}
use ppgram.Password.{Crypto, verify_password}
use ppgram.Auth.{
  AuthCredentials, default_deps, hide_not_found, check_password, reject_if_pending_deletion,
  login_by_credentials,
}
use ppgram.Auth.Login.{login_name}

-- The connections work from here on, and the database is there.
pub record Steady (b : Backend) : Type 0 where
  pub ready : b.db_ready ≡ true
  pub no_faults : b.faults ≡ []

-- A check that passes.
pub refuse_if->>-step {ℓ} :
    {A : Type ℓ} (t : Bool) (e : Error) (m : Exec A) (b : Backend)
    → t ≡ false
    → (refuse_if t e >> m) b ≡ m b
unfolding refuse_if ◌>>=◌ continue
refuse_if->>-step t e m b h = rw h

pub refuse_if->>-stop {ℓ} :
    {A : Type ℓ} (t : Bool) (e : Error) (m : Exec A) (b : Backend)
    → t ≡ true
    → (refuse_if t e >> m) b ≡ (err e, b)
unfolding refuse_if ◌>>=◌ continue
refuse_if->>-stop t e m b h = rw h

pub default_deps->>=-step {ℓ} :
    {A : Type ℓ} (f : Bool → Exec A) (b : Backend)
    → b.db_ready ≡ true
    → (default_deps >>= f) b ≡ f b.redis_ready b
unfolding default_deps ◌>>=◌ continue
default_deps->>=-step f b h = rw h

-- A statement that only reads.
pub query-step {ℓ} :
    {A : Type ℓ} (on_unique : Error) (f : Statement A) (o : A) (b : Backend)
    → b.faults ≡ []
    → f b.db_now b.db ≡ (done o, b.db)
    → query on_unique f b ≡ (ok o, b)
unfolding query run_statement run_with outcome_result
query-step on_unique f o b quiet reads = rw (quiet, reads)

abbrev found_or : Option User → Result User
found_or none = err invalid_credentials
found_or (some user) = ok user

row_or-handled :
    (o : Option User) (b : Backend)
    → handle (row_or user_not_found o) hide_not_found pure b ≡ (found_or o, b)
unfolding row_or handle handle_with hide_not_found pure raise is_user_not_found
row_or-handled none b = refl
row_or-handled (some user) b = refl

valid-is_empty : (s : GoString) → valid_username s ≡ true → is_empty s ≡ false
unfolding valid_username is_empty
valid-is_empty [] h = cc
valid-is_empty (c ∷ s) h = refl

found_user-step :
    (name : GoString) (b : Backend)
    → Steady b
    → valid_username name ≡ true
    → handle (get_user_by_username name) hide_not_found pure b
      ≡ (found_or (find (user_has_name name) b.db.users), b)
unfolding get_user_by_username handle
found_user-step name b steady valid =
    let same = trim_space_of_valid name valid in
    let looked =
      query-step db_failure (select_user_by_username name) (find (user_has_name name) b.db.users) b
        steady.no_faults (unfold select_user_by_username in refl) in
    rw same (
      ap (λ r. handle_with r hide_not_found pure)
        (refuse_if->>-step _ (db_missing_required_fields (codes "username")) _ b
            (valid-is_empty name valid)
          ∙ >>=-step _ (row_or user_not_found) looked)
      ∙ unfold handle in row_or-handled (find (user_has_name name) b.db.users) b)

module _ (crypto : Crypto) (creds : AuthCredentials) (b : Backend) where
  -- Why credentials are wrong.
  pub data BadCredentials : Type 0 where
    bad_name : valid_username (login_name crypto creds) ≡ false → BadCredentials
    blank_password : is_empty (trim_space creds.password) ≡ true → BadCredentials
    unknown : find (user_has_name (login_name crypto creds)) b.db.users ≡ none → BadCredentials
    wrong_password :
        (user : User)
        → find (user_has_name (login_name crypto creds)) b.db.users ≡ some user
        → verify_password crypto creds.password user.password_hash ≢ ok true
        → BadCredentials

  check_password-stop :
      (r : Result Bool) → r ≢ ok true → check_password r b ≡ (err invalid_credentials, b)
  unfolding check_password raise
  check_password-stop (ok true) h = elim (h refl) [ ]
  check_password-stop (ok false) h = refl
  check_password-stop (err e) h = refl

  check_password-step : (r : Result Bool) → r ≡ ok true → check_password r b ≡ (ok tt, b)
  unfolding check_password pure
  check_password-step r h = rw h

  reject_if_pending_deletion-stop :
      (user_id : GoString)
      → Steady b
      → is_empty (trim_space user_id) ≡ false
      → exists (deletion_of (trim_space user_id)) b.db.pending_account_deletions ≡ true
      → reject_if_pending_deletion user_id b ≡ (err account_pending_deletion, b)
  unfolding reject_if_pending_deletion exists_active_by_user_id
  reject_if_pending_deletion-stop user_id steady given pending =
      let looked =
        query-step db_failure (deletion_exists (trim_space user_id)) true b steady.no_faults
          (unfold deletion_exists in ap (λ x. (done x, b.db)) pending) in
      >>=-step _ _
        (refuse_if->>-step _ (db_missing_required_fields (codes "user_id")) _ b given ∙ looked)
      ∙ unfold refuse_if in refl

  -- With the database there and connections that work, and a device id given, an invalid name, a
  -- blank password, an unknown name and a wrong password all give the same error, invalid
  -- credentials, and change nothing.
  pub login_by_credentials-bad :
      Steady b
      → is_empty (trim_space creds.device_id) ≡ false
      → BadCredentials
      → login_by_credentials crypto creds b ≡ (err invalid_credentials, b)
  unfolding login_by_credentials
  login_by_credentials-bad steady device bad =
      default_deps->>=-step _ b steady.ready
      ∙ elim (Bool-cases (valid_username (login_name crypto creds))) [
        | inr invalid ↦ refuse_if->>-stop _ _ _ b (ap not invalid)
        | inl valid ↦
            refuse_if->>-step _ _ _ b (ap not valid)
            ∙ elim (Bool-cases (is_empty (trim_space creds.password))) [
              | inl blank ↦ refuse_if->>-stop _ _ _ b blank
              | inr given ↦
                  refuse_if->>-step _ _ _ b given ∙ refuse_if->>-step _ _ _ b device ∙ elim bad [
                    | bad_name invalid ↦ cc
                    | blank_password blank ↦ cc
                    | unknown absent ↦ >>=-stop _ _ (
                        found_user-step (login_name crypto creds) b steady valid
                        ∙ ap (λ o. (found_or o, b)) absent)
                    | wrong_password user found wrong ↦
                        >>=-step _ _ (
                          found_user-step (login_name crypto creds) b steady valid
                          ∙ ap (λ o. (found_or o, b)) found)
                        ∙ >>=-stop _ _ (check_password-stop _ wrong)
                  ]
            ]
      ]

  -- With the database there and connections that work, a login with a valid name, the right
  -- password, which is not blank, and a device id is refused with the error for a pending
  -- deletion, and changes nothing, if the user, whose id is not empty, has a pending deletion,
  -- started or not.
  pub login_by_credentials-pending :
      (user : User)
      → Steady b
      → valid_username (login_name crypto creds) ≡ true
      → is_empty (trim_space creds.password) ≡ false
      → is_empty (trim_space creds.device_id) ≡ false
      → find (user_has_name (login_name crypto creds)) b.db.users ≡ some user
      → verify_password crypto creds.password user.password_hash ≡ ok true
      → is_empty (trim_space user.id) ≡ false
      → exists (deletion_of (trim_space user.id)) b.db.pending_account_deletions ≡ true
      → login_by_credentials crypto creds b ≡ (err account_pending_deletion, b)
  unfolding login_by_credentials
  login_by_credentials-pending user steady valid given device found right id_given pending =
      default_deps->>=-step _ b steady.ready
      ∙ refuse_if->>-step _ _ _ b (ap not valid)
      ∙ refuse_if->>-step _ _ _ b given
      ∙ refuse_if->>-step _ _ _ b device
      ∙ >>=-step _ _ (
          found_user-step (login_name crypto creds) b steady valid
          ∙ ap (λ o. (found_or o, b)) found)
      ∙ >>=-step _ _ (check_password-step _ right)
      ∙ >>=-stop _ _ (reject_if_pending_deletion-stop user.id steady id_given pending)
