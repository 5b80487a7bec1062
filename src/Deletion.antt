-- ===== src/Deletion.antt =====
-- server/auth/delete.go: scheduling and cancelling the deletion of an account, and the worker that
-- deletes accounts.
pub mod Rows
pub mod Claim
pub mod Lifecycle
pub mod Worker
pub mod Progress
pub mod Turn
pub mod Deleted
mod Tests
use ppgram.Prelude.{
  ℕ, zero, ◌==◌, ◌+◌, ◌*◌, ◌-◌, ◌/◌, ◌%◌, ◌^◌, Bool, true, false, not, ◌||◌, List, [], ◌∷◌, Option,
  none, some, GoString, is_empty, if◌then◌else◌,
}
use ppgram.Text.{trim_space}
use ppgram.Username.{normalize_username, valid_username}
use ppgram.Errors.{
  Error, Result, ok, err, invalid_credentials, account_deletion_in_progress, is_user_not_found,
}
use ppgram.Database.{Time, User, PendingAccountDeletion}
use ppgram.Backend.{Backend, Fault, Exec, pure, raise, refuse_if, handle, time_now, ◌>>=◌, ◌>>◌}
use ppgram.Repository.{
  get_user_by_username, upsert_pending_deletion, cancel_if_not_started, delete_user_by_id,
  delete_by_user_id, claim_due,
}
use ppgram.Cache.{remove_username}
use ppgram.Password.{Crypto, verify_password}
use ppgram.Auth.{default_deps, hide_not_found, check_password}

abbrev pub second : Time
second = 10 ^ 9

abbrev pub default_deletion_worker_interval : ℕ
default_deletion_worker_interval = 60 * 10 ^ 9

abbrev pub account_deletion_delay : Time
account_deletion_delay = 30 * 24 * 60 * 60 * second

-- Unix(): the seconds after the first of January 1970, as a uint64.
unfoldable pub unix : Time → ℕ
unix t = (t / second + 2 ^ 64 - 62135596800) % 2 ^ 64

unfoldable pub verify_delete_credentials : Crypto → GoString → GoString → Exec User
verify_delete_credentials crypto username password =
    let normalized = normalize_username crypto.lower_high username in
    do
      refuse_if (not (valid_username normalized) || is_empty (trim_space password))
          invalid_credentials
      user ← handle (get_user_by_username normalized) hide_not_found pure
      check_password (verify_password crypto password user.password_hash)
      pure user

unfoldable pub schedule_account_deletion : Crypto → GoString → GoString → Exec ℕ
schedule_account_deletion crypto username password = do
  default_deps
  user ← verify_delete_credentials crypto username password
  now ← time_now
  deletion ← upsert_pending_deletion user.id (now + account_deletion_delay)
  pure (unix deletion.delete_at)

unfoldable pub cancel_account_deletion : Crypto → GoString → GoString → Exec (Unit {0})
cancel_account_deletion crypto username password = do
  default_deps
  user ← verify_delete_credentials crypto username password
  (cancelled, in_progress) ← cancel_if_not_started user.id
  refuse_if in_progress account_deletion_in_progress

-- The error of a call that is only logged.
abbrev pub ignore : Error → Exec (Unit {0})
ignore e = pure tt

unfoldable pub remove_username_from_cache : Crypto → Bool → GoString → Exec (Unit {0})
remove_username_from_cache crypto false username = pure tt
remove_username_from_cache crypto true username =
    let normalized = normalize_username crypto.lower_high username in
    if not (valid_username normalized)
    then pure tt
    else handle (remove_username normalized) ignore pure

-- One round of the worker's loop when `DeleteUserByID` has failed.
unfoldable pub after_failed_delete : PendingAccountDeletion → Error → Exec (Unit {0})
after_failed_delete item e =
    if is_user_not_found e then handle (delete_by_user_id item.user_id) ignore pure else pure tt

-- One round of the worker's loop.
unfoldable pub delete_account : Crypto → Bool → PendingAccountDeletion → Exec (Unit {0})
delete_account crypto redis item =
    handle (delete_user_by_id item.user_id) (after_failed_delete item)
      (remove_username_from_cache crypto redis)

unfoldable pub delete_accounts : Crypto → Bool → List PendingAccountDeletion → Exec (Unit {0})
delete_accounts crypto redis [] = pure tt
delete_accounts crypto redis (item ∷ claimed) = do
  delete_account crypto redis item
  delete_accounts crypto redis claimed

-- `processDueAccountDeletions`; what it logs is not modelled, so that every error is ignored.
unfoldable pub process_due_account_deletions : Crypto → Exec (Unit {0})
process_due_account_deletions crypto =
    handle default_deps ignore
      λ redis. handle (claim_due 50) ignore λ claimed. delete_accounts crypto redis claimed

-- What the goroutine of `StartDeletionWorker` waits for: a tick, when the clocks have gone on and the
-- connections are others, or the end of the context.
pub data WorkerEvent : Type 0 where
  ticks : (now db_now : Time) (faults : List Fault) → WorkerEvent
  context_done : WorkerEvent

-- An interval that is not positive is 0 here.
unfoldable pub worker_interval : ℕ → ℕ
worker_interval interval = if interval == 0 then default_deletion_worker_interval else interval

abbrev pub run_once : Crypto → Backend → Backend
run_once crypto b = (process_due_account_deletions crypto b).1

unfoldable pub worker_loop : Crypto → List WorkerEvent → Backend → Backend
unfolding process_due_account_deletions
worker_loop crypto [] b = b
worker_loop crypto (context_done ∷ events) b = b
worker_loop crypto (ticks now db_now faults ∷ events) b =
    worker_loop crypto events
      (run_once crypto (record b { now = now; db_now = db_now; faults = faults }))

-- The goroutine: a first run at once, then the loop.
unfoldable pub deletion_worker : Crypto → List WorkerEvent → Backend → Backend
unfolding worker_loop process_due_account_deletions
deletion_worker crypto events b = worker_loop crypto events (run_once crypto b)
