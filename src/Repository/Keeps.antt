-- ===== src/Repository/Keeps.antt =====
-- The methods of the repositories in database/*.go and the consistency of the tables.
use ppgram.Prelude.{ℕ, Bool, true, false, ◌≡◌, List, Option, none, some, GoString}
use ppgram.Text.{trim_space}
use ppgram.Errors.{Error}
use ppgram.Username.{valid_username}
use ppgram.Database.{Time}
use ppgram.Database.Users.{select_user_by_id, select_user_by_username, username_exists, delete_user}
use ppgram.Database.Tokens.{select_active_token}
use ppgram.Database.Deletions.{deletion_exists, started_exists}
use ppgram.Database.Invariant.Users.{insert_user-IsConsistent, drop_user-IsConsistent}
use ppgram.Database.Invariant.Tokens.{upsert_token-IsConsistent, rotate_token-IsConsistent}
use ppgram.Database.Invariant.Deletions.{
  upsert_deletion-IsConsistent, delete_deletion-IsConsistent, delete_not_started-IsConsistent,
  claim_due_rows-IsConsistent,
}
use ppgram.Backend.Keeps.{Keeps, keeps_rules}
use ppgram.Repository.{
  row_or, create_user, get_user_by_id, get_user_by_username, delete_user_by_id,
  is_username_available, upsert_active_token, get_active_by_token_hash, rotate_user_token,
  upsert_pending_deletion, delete_by_user_id, exists_active_by_user_id, check_started,
  cancel_if_not_started, claim_due,
}

pub Keeps-row_or {ℓ} : {A : Type ℓ} (e : Error) (o : Option A) → Keeps (row_or e o)
unfolding row_or
Keeps-row_or e none = search keeps_rules
Keeps-row_or e (some a) = search keeps_rules

pub Keeps-create_user :
    (username display_name password_hash : GoString)
    → valid_username (trim_space username) ≡ true
    → Keeps (create_user username display_name password_hash)
unfolding create_user
Keeps-create_user username display_name password_hash valid =
    search (keeps_rules, insert_user-IsConsistent)

pub Keeps-get_user_by_username : (username : GoString) → Keeps (get_user_by_username username)
unfolding get_user_by_username select_user_by_username
Keeps-get_user_by_username username = search (keeps_rules, Keeps-row_or)

pub Keeps-get_user_by_id : (user_id : GoString) → Keeps (get_user_by_id user_id)
unfolding get_user_by_id select_user_by_id
Keeps-get_user_by_id user_id = search (keeps_rules, Keeps-row_or)

pub Keeps-delete_user_by_id : (user_id : GoString) → Keeps (delete_user_by_id user_id)
unfolding delete_user_by_id delete_user
Keeps-delete_user_by_id user_id = search (keeps_rules, Keeps-row_or, drop_user-IsConsistent)

pub Keeps-is_username_available : (username : GoString) → Keeps (is_username_available username)
unfolding is_username_available username_exists
Keeps-is_username_available username = search keeps_rules

pub Keeps-upsert_active_token :
    (user_id device_id device_name : GoString) (token_hash : List ℕ)
    → Keeps (upsert_active_token user_id device_id device_name token_hash)
unfolding upsert_active_token
Keeps-upsert_active_token user_id device_id device_name token_hash =
    search (keeps_rules, upsert_token-IsConsistent)

pub Keeps-get_active_by_token_hash :
    (token_hash : List ℕ) → Keeps (get_active_by_token_hash token_hash)
unfolding get_active_by_token_hash select_active_token
Keeps-get_active_by_token_hash token_hash = search (keeps_rules, Keeps-row_or)

pub Keeps-rotate_user_token :
    (token_id : ℕ) (token_hash : List ℕ) → Keeps (rotate_user_token token_id token_hash)
unfolding rotate_user_token
Keeps-rotate_user_token token_id token_hash = search (keeps_rules, rotate_token-IsConsistent)

pub Keeps-upsert_pending_deletion :
    (user_id : GoString) (delete_at : Time) → Keeps (upsert_pending_deletion user_id delete_at)
unfolding upsert_pending_deletion
Keeps-upsert_pending_deletion user_id delete_at = search (keeps_rules, upsert_deletion-IsConsistent)

pub Keeps-delete_by_user_id : (user_id : GoString) → Keeps (delete_by_user_id user_id)
unfolding delete_by_user_id
Keeps-delete_by_user_id user_id = search (keeps_rules, delete_deletion-IsConsistent)

pub Keeps-exists_active_by_user_id : (user_id : GoString) → Keeps (exists_active_by_user_id user_id)
unfolding exists_active_by_user_id deletion_exists
Keeps-exists_active_by_user_id user_id = search keeps_rules

Keeps-check_started : (id : GoString) (deleted : Bool) → Keeps (check_started id deleted)
unfolding check_started started_exists
Keeps-check_started id true = search keeps_rules
Keeps-check_started id false = search keeps_rules

pub Keeps-cancel_if_not_started : (user_id : GoString) → Keeps (cancel_if_not_started user_id)
unfolding cancel_if_not_started
Keeps-cancel_if_not_started user_id =
    search (keeps_rules, delete_not_started-IsConsistent, Keeps-check_started)

pub Keeps-claim_due : (limit : ℕ) → Keeps (claim_due limit)
unfolding claim_due
Keeps-claim_due limit = search (keeps_rules, claim_due_rows-IsConsistent)

pub ruleset repository_rules = (
  keeps_rules, Keeps-row_or, Keeps-get_user_by_username, Keeps-delete_user_by_id,
  Keeps-is_username_available, Keeps-upsert_active_token, Keeps-get_active_by_token_hash,
  Keeps-rotate_user_token, Keeps-upsert_pending_deletion, Keeps-delete_by_user_id,
  Keeps-exists_active_by_user_id, Keeps-cancel_if_not_started, Keeps-claim_due,
)
