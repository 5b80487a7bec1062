-- ===== src/Service/Invariant.antt =====
-- The tables under the steps of the services of server/auth.
use ppgram.Prelude.{
  Bool, true, false, not, ◌≡◌, List, [], ◌∷◌, GoString, arith, if◌then◌else◌, subst, sym,
}
use ppgram.Errors.{Error, Result, ok, err}
use ppgram.Username.{valid_username}
use ppgram.Username.Normal.{trim_space_of_valid}
use ppgram.Database.{PendingAccountDeletion}
use ppgram.Database.Invariant.{IsConsistent}
use ppgram.Backend.{Backend, Fault, fine, lost_request, lost_reply}
use ppgram.Backend.Keeps.{Keeps, Keeps-guard, Keeps-bind, Keeps-refuse_if}
use ppgram.Repository.{create_user}
use ppgram.Repository.Keeps.{Keeps-create_user, repository_rules}
use ppgram.Cache.{
  Redis, call_with, redis_call, require_client, cached_username_exists, set_username,
  remove_username,
}
use ppgram.Password.{Crypto, hash_password, generate_session_token_pair}
use ppgram.Auth.{
  AuthCredentials, default_deps, reject_if_pending_deletion, reject_if_cached, cache_username,
  issue_token, register, hide_not_found, check_password, login_by_credentials, hide_no_token,
  login_by_token,
}
use ppgram.Deletion.{
  verify_delete_credentials, schedule_account_deletion, cancel_account_deletion,
  remove_username_from_cache, after_failed_delete, delete_account, delete_accounts,
  process_due_account_deletions,
}
use ppgram.Service.{
  Step, registers, logs_in, logs_in_by_token, schedules, cancels, worker_runs, time_passes,
  redis_changes, Reachable, start, next,
}

call_with-Keeps {ℓ} :
    {A : Type ℓ} (faults : List Fault) (f : Redis → A × Redis) (b : Backend)
    → IsConsistent b.db
    → IsConsistent (call_with faults f b).1.db
unfolding call_with
call_with-Keeps [] f b h = h
call_with-Keeps (fine ∷ rest) f b h = h
call_with-Keeps (lost_request ∷ rest) f b h = h
call_with-Keeps (lost_reply ∷ rest) f b h = h

Keeps-redis_call {ℓ} : {A : Type ℓ} (f : Redis → A × Redis) → Keeps (redis_call f)
unfolding redis_call
Keeps-redis_call f = record { at = λ b h. call_with-Keeps b.faults f b h }

Keeps-require_client : Keeps require_client
unfolding require_client
Keeps-require_client = record { at = λ b h. (Keeps-refuse_if (not b.redis_ready) _).at b h }

either {ℓ} :
    {A : Type ℓ} (t : Bool) (r r' : Result A) (b : Backend)
    → IsConsistent b.db
    → IsConsistent (if◌then◌else◌ {A = Result A × Backend} t (r, b) (r', b)).1.db
either true r r' b h = h
either false r r' b h = h

Keeps-default_deps : Keeps default_deps
unfolding default_deps
Keeps-default_deps = record { at = λ b h. either b.db_ready _ _ b h }

ruleset base_rules = (repository_rules, Keeps-redis_call, Keeps-require_client, Keeps-default_deps)

Keeps-cached_username_exists : (name : GoString) → Keeps (cached_username_exists name)
unfolding cached_username_exists
Keeps-cached_username_exists name = search base_rules

Keeps-set_username : (name user_id : GoString) → Keeps (set_username name user_id)
unfolding set_username
Keeps-set_username name user_id = search base_rules

Keeps-remove_username : (name : GoString) → Keeps (remove_username name)
unfolding remove_username
Keeps-remove_username name = search base_rules

Keeps-reject_if_cached : (redis : Bool) (name : GoString) → Keeps (reject_if_cached redis name)
unfolding reject_if_cached
Keeps-reject_if_cached true name = search (base_rules, Keeps-cached_username_exists)
Keeps-reject_if_cached false name = search base_rules

Keeps-cache_username :
    (redis : Bool) (name user_id : GoString) → Keeps (cache_username redis name user_id)
unfolding cache_username
Keeps-cache_username true name user_id = search (base_rules, Keeps-set_username)
Keeps-cache_username false name user_id = search base_rules

Keeps-reject_if_pending_deletion : (user_id : GoString) → Keeps (reject_if_pending_deletion user_id)
unfolding reject_if_pending_deletion
Keeps-reject_if_pending_deletion user_id = search base_rules

Keeps-check_password : (r : Result Bool) → Keeps (check_password r)
unfolding check_password
Keeps-check_password (ok true) = search base_rules
Keeps-check_password (ok false) = search base_rules
Keeps-check_password (err e) = search base_rules

Keeps-hide_not_found {ℓ} : {A : Type ℓ} (e : Error) → Keeps (hide_not_found {A = A} e)
unfolding hide_not_found
Keeps-hide_not_found e = search base_rules

Keeps-hide_no_token {ℓ} : {A : Type ℓ} (e : Error) → Keeps (hide_no_token {A = A} e)
unfolding hide_no_token
Keeps-hide_no_token e = search base_rules

module _ (crypto : Crypto) where
  Keeps-hash_password : (password : GoString) → Keeps (hash_password crypto password)
  unfolding hash_password
  Keeps-hash_password password = search base_rules

  Keeps-generate_session_token_pair : Keeps (generate_session_token_pair crypto)
  unfolding generate_session_token_pair
  Keeps-generate_session_token_pair = search base_rules

  Keeps-issue_token :
      (user_id device_id device_name : GoString)
      → Keeps (issue_token crypto user_id device_id device_name)
  unfolding issue_token
  Keeps-issue_token user_id device_id device_name =
      search (base_rules, Keeps-generate_session_token_pair)

  -- The name is one that `ValidUsername` has accepted, so that trimming it again changes nothing.
  Keeps-create_valid :
      (name display_name password_hash : GoString)
      → not (valid_username name) ≡ false
      → Keeps (create_user name display_name password_hash)
  Keeps-create_valid name display_name password_hash accepted =
      let valid : valid_username name ≡ true = ground arith in
      Keeps-create_user name display_name password_hash
        (subst (λ s. valid_username s ≡ true) (sym (trim_space_of_valid name valid)) valid)

  pub Keeps-register : (creds : AuthCredentials) → Keeps (register crypto creds)
  unfolding register
  Keeps-register creds = Keeps-bind default_deps _ Keeps-default_deps λ redis.
      Keeps-guard _ _ _ λ accepted.
        search
          (
            base_rules,
            Keeps-reject_if_cached,
            Keeps-hash_password,
            Keeps-create_valid _ _ _ accepted,
            Keeps-cache_username,
            Keeps-issue_token,
          )
          depth 9

  pub Keeps-login_by_credentials :
      (creds : AuthCredentials) → Keeps (login_by_credentials crypto creds)
  unfolding login_by_credentials
  Keeps-login_by_credentials creds =
      search
        (
          base_rules, Keeps-hide_not_found, Keeps-check_password, Keeps-reject_if_pending_deletion,
          Keeps-issue_token,
        )
        depth 9

  pub Keeps-login_by_token : (token : GoString) → Keeps (login_by_token crypto token)
  unfolding login_by_token
  Keeps-login_by_token token =
      search
        (
          base_rules, Keeps-hide_no_token, Keeps-reject_if_pending_deletion,
          Keeps-generate_session_token_pair,
        )
        depth 9

  Keeps-verify_delete_credentials :
      (username password : GoString) → Keeps (verify_delete_credentials crypto username password)
  unfolding verify_delete_credentials
  Keeps-verify_delete_credentials username password =
      search (base_rules, Keeps-hide_not_found, Keeps-check_password) depth 9

  pub Keeps-schedule_account_deletion :
      (username password : GoString) → Keeps (schedule_account_deletion crypto username password)
  unfolding schedule_account_deletion
  Keeps-schedule_account_deletion username password =
      search (base_rules, Keeps-verify_delete_credentials) depth 9

  pub Keeps-cancel_account_deletion :
      (username password : GoString) → Keeps (cancel_account_deletion crypto username password)
  unfolding cancel_account_deletion
  Keeps-cancel_account_deletion username password =
      search (base_rules, Keeps-verify_delete_credentials) depth 9

  Keeps-remove_username_from_cache :
      (redis : Bool) (name : GoString) → Keeps (remove_username_from_cache crypto redis name)
  unfolding remove_username_from_cache
  Keeps-remove_username_from_cache true name = search (base_rules, Keeps-remove_username) depth 9
  Keeps-remove_username_from_cache false name = search base_rules

  Keeps-after_failed_delete :
      (item : PendingAccountDeletion) (e : Error) → Keeps (after_failed_delete item e)
  unfolding after_failed_delete
  Keeps-after_failed_delete item e = search base_rules depth 9

  Keeps-delete_account :
      (redis : Bool) (item : PendingAccountDeletion) → Keeps (delete_account crypto redis item)
  unfolding delete_account
  Keeps-delete_account redis item =
      search (base_rules, Keeps-after_failed_delete, Keeps-remove_username_from_cache)

  Keeps-delete_accounts :
      (redis : Bool) (claimed : List PendingAccountDeletion)
      → Keeps (delete_accounts crypto redis claimed)
  unfolding delete_accounts
  Keeps-delete_accounts redis [] = search base_rules
  Keeps-delete_accounts redis (item ∷ claimed) =
      Keeps-bind _ _ (Keeps-delete_account redis item) (λ _. Keeps-delete_accounts redis claimed)

  pub Keeps-process_due_account_deletions : Keeps (process_due_account_deletions crypto)
  unfolding process_due_account_deletions
  Keeps-process_due_account_deletions = search (base_rules, Keeps-delete_accounts) depth 9

  -- Each call of a service, and each move of the environment, keeps the tables consistent.
  Step-IsConsistent : {b c : Backend} → Step crypto b c → IsConsistent b.db → IsConsistent c.db
  Step-IsConsistent (registers creds) h = (Keeps-register creds).at _ h
  Step-IsConsistent (logs_in creds) h = (Keeps-login_by_credentials creds).at _ h
  Step-IsConsistent (logs_in_by_token token) h = (Keeps-login_by_token token).at _ h
  Step-IsConsistent (schedules username password) h =
      (Keeps-schedule_account_deletion username password).at _ h
  Step-IsConsistent (cancels username password) h =
      (Keeps-cancel_account_deletion username password).at _ h
  Step-IsConsistent worker_runs h = Keeps-process_due_account_deletions.at _ h
  Step-IsConsistent (time_passes now db_now faults entropy) h = h
  Step-IsConsistent (redis_changes redis) h = h

  -- From consistent tables, after any requests, runs of the worker, failures of the connections
  -- and changes of Redis, in any order: ids, usernames, devices and token hashes are unique,
  -- every token and every pending deletion belongs to a user, and every username is a valid one.
  pub Reachable-IsConsistent :
      {b c : Backend} → Reachable crypto b c → IsConsistent b.db → IsConsistent c.db
  Reachable-IsConsistent start h = h
  Reachable-IsConsistent (next r s) h = Step-IsConsistent s (Reachable-IsConsistent r h)
