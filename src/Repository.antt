-- ===== src/Repository.antt =====
-- The methods of the repositories in database/*.go: their checks on the arguments, their statements
-- and the errors that they make of what the database reports.
pub mod Returns
pub mod Keeps
use ppgram.Prelude.{
  ℕ, zero, Bool, true, false, not, List, Option, none, some, GoString, codes, is_empty, ◌==◌,
  length, if◌then◌else◌,
}
use Prim.Native.String.{String}
use ppgram.Text.{trim_space}
use ppgram.Errors.{
  Error, db_missing_required_fields, user_not_found, username_taken, user_token_not_found,
  db_failure,
}
use ppgram.Database.{Time, User, UserToken, PendingAccountDeletion}
use ppgram.Database.Users.{
  insert_user, select_user_by_id, select_user_by_username, username_exists, delete_user,
}
use ppgram.Database.Tokens.{upsert_token, select_active_token, rotate_token}
use ppgram.Database.Deletions.{
  upsert_deletion, delete_deletion, deletion_exists, delete_not_started, started_exists,
  claim_due_rows,
}
use ppgram.Backend.{Exec, pure, raise, refuse_if, query, ◌>>=◌, ◌>>◌}

-- pgx.ErrNoRows, as the error that the method makes of it
unfoldable pub row_or {ℓ} : {A : Type ℓ} → Error → Option A → Exec A
row_or e none = raise e
row_or e (some a) = pure a

-- A field that must not be empty.
abbrev pub require : GoString → String → Exec (Unit {0})
require value field = refuse_if (is_empty value) (db_missing_required_fields (codes field))

unfoldable pub create_user : GoString → GoString → GoString → Exec User
create_user username display_name password_hash =
    let name = trim_space username in
    do
      require name "username"
      require password_hash "password_hash"
      query username_taken (insert_user name (trim_space display_name) password_hash)

unfoldable pub get_user_by_id : GoString → Exec User
get_user_by_id user_id = do
  refuse_if (is_empty user_id) user_not_found
  row ← query db_failure (select_user_by_id user_id)
  row_or user_not_found row

unfoldable pub delete_user_by_id : GoString → Exec GoString
delete_user_by_id user_id =
    let id = trim_space user_id in
    do require id "user_id"; row ← query db_failure (delete_user id); row_or user_not_found row

unfoldable pub get_user_by_username : GoString → Exec User
get_user_by_username username =
    let name = trim_space username in
    do
      require name "username"
      row ← query db_failure (select_user_by_username name)
      row_or user_not_found row

unfoldable pub is_username_available : GoString → Exec Bool
is_username_available username =
    let name = trim_space username in
    do require name "username"; taken ← query db_failure (username_exists name); pure (not taken)

-- `len(tokenHash) == 0`
abbrev pub require_hash : List ℕ → Exec (Unit {0})
require_hash token_hash = require token_hash "token_hash"

unfoldable pub upsert_active_token : GoString → GoString → GoString → List ℕ → Exec (Unit {0})
upsert_active_token user_id device_id device_name token_hash =
    let user = trim_space user_id in
    let device = trim_space device_id in
    do
      require user "user_id"
      require device "device_id"
      require_hash token_hash
      query db_failure (upsert_token user token_hash device (trim_space device_name))

unfoldable pub get_active_by_token_hash : List ℕ → Exec UserToken
get_active_by_token_hash token_hash = do
  require_hash token_hash
  row ← query db_failure (select_active_token token_hash)
  row_or user_token_not_found row

-- `RotateToken`, whose method and statement share a name.
unfoldable pub rotate_user_token : ℕ → List ℕ → Exec (Unit {0})
rotate_user_token token_id new_token_hash = do
  refuse_if (token_id == 0) (db_missing_required_fields (codes "token_id"))
  require_hash new_token_hash
  found ← query db_failure (rotate_token token_id new_token_hash)
  refuse_if (not found) user_token_not_found

-- `Upsert`
unfoldable pub upsert_pending_deletion : GoString → Time → Exec PendingAccountDeletion
upsert_pending_deletion user_id delete_at =
    let id = trim_space user_id in
    do
      require id "user_id"
      refuse_if (delete_at == 0) (db_missing_required_fields (codes "delete_at"))
      query db_failure (upsert_deletion id delete_at)

unfoldable pub delete_by_user_id : GoString → Exec (Unit {0})
delete_by_user_id user_id =
    let id = trim_space user_id in do require id "user_id"; query db_failure (delete_deletion id)

unfoldable pub exists_active_by_user_id : GoString → Exec Bool
exists_active_by_user_id user_id =
    let id = trim_space user_id in do require id "user_id"; query db_failure (deletion_exists id)

-- The second statement of `CancelIfNotStarted`, run when the first has deleted no row.
unfoldable pub check_started : GoString → Bool → Exec (Bool × Bool)
check_started id true = pure (true, false)
check_started id false = do
  in_progress ← query db_failure (started_exists id)
  pure (false, in_progress)

-- `CancelIfNotStarted`, with `cancelled` and `inProgress`.
unfoldable pub cancel_if_not_started : GoString → Exec (Bool × Bool)
cancel_if_not_started user_id =
    let id = trim_space user_id in
    do
      require id "user_id"
      deleted ← query db_failure (delete_not_started id)
      check_started id deleted

-- `ClaimDue`; a limit below 1 is 0 here.
unfoldable pub claim_due : ℕ → Exec (List PendingAccountDeletion)
claim_due limit = query db_failure (claim_due_rows (if limit == 0 then 50 else limit))
