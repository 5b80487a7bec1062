-- ===== src/Deletion/Tests.antt =====
-- Runs of server/auth/delete.go, and its theorems at concrete inputs.
use ppgram.Prelude.{
  ◌*◌, ◌≤◌, true, false, arith, ◌&&◌, [], ◌∷◌, none, some, GoString, codes, is_empty, ◌≡◌, refl,
  All, ◌=s=◌, length,
}
use mathlib.Core.Option
use ppgram.Text.{
  is_space, trim_left, trim_right, trim_func, trim_space, to_lower_rune, to_lower, split, cons_head,
}
use ppgram.Username.{normalize_username, valid_byte, valid_bytes, last_byte, valid_username}
use ppgram.Table.{find, select, update, exists}
use ppgram.Errors.{ok, is_user_not_found}
use ppgram.Database.{Time, PendingAccountDeletion, done, user_has_id}
use ppgram.Database.Users.{select_user_by_username}
use ppgram.Database.Deletions.{
  upsert_deletion, delete_not_started, started_exists, is_due, due_rows, order_by_delete_at,
  insert_by_delete_at, is_among, claim_due_rows,
}
use ppgram.Backend.{
  Backend, pure, raise, continue, ◌>>=◌, handle, handle_with, refuse_if, run_with, run_statement,
  outcome_result, query, time_now,
}
use ppgram.Repository.{
  row_or, get_user_by_username, upsert_pending_deletion, cancel_if_not_started, check_started,
}
use ppgram.Password.{
  print_digits, decimal, base64_char, base64_value, base64_encode, base64_values, base64_bytes,
  base64_decode, scan_literal, skip_space, is_digit, scan_digits, scan_number, scan_uint,
  scan_field, scan_params, encode_hash, verify_decoded, verify_parts, verify_password,
}
use ppgram.Auth.{default_deps, hide_not_found, check_password}
use ppgram.Auth.Samples.{sample_crypto, anna, with_anna}
use ppgram.Deletion.{
  unix, second, verify_delete_credentials, schedule_account_deletion, cancel_account_deletion,
  process_due_account_deletions,
}
use ppgram.Deletion.Lifecycle.{
  Scheduled, schedule_account_deletion-Scheduled, Cancelled, cancel_account_deletion-Cancelled,
}
use ppgram.Deletion.Claim.{ClaimedAt, claim_due_rows-ClaimedAt, claim_due_rows-once}
use ppgram.Deletion.Turn.{of_user}
use ppgram.Deletion.Deleted.{process_due_account_deletions-Deleted}
use ppgram.Deletion.Worker.{process_due_account_deletions-SameUser}

abbrev row : GoString → Time → PendingAccountDeletion
row user_id delete_at = record {
  user_id = user_id;
  scheduled_at = 10;
  delete_at = delete_at;
  started_at = none;
}

-- The user, at the beginning of 2026.
abbrev new_year : Backend
new_year = record with_anna { now = 63902822400 * second; db_now = 63902822400 * second }

abbrev scheduled : Backend
scheduled = (schedule_account_deletion sample_crypto anna.username anna.password new_year).1

schedules :
    schedule_account_deletion sample_crypto anna.username anna.password new_year
    ≡ (ok 1769817600, scheduled)
unfolding schedule_account_deletion default_deps continue ◌>>=◌ refuse_if handle handle_with pure
    raise run_with run_statement outcome_result query row_or get_user_by_username normalize_username
    valid_username valid_bytes valid_byte last_byte trim_space trim_func trim_left trim_right
    is_space to_lower to_lower_rune is_empty select_user_by_username exists find select update
    encode_hash decimal print_digits base64_encode base64_char base64_value base64_values
    base64_bytes base64_decode Option.bind scan_literal skip_space is_digit scan_digits scan_number
    scan_uint scan_field scan_params verify_decoded verify_parts verify_password split cons_head
    check_password hide_not_found is_user_not_found ◌=s=◌ verify_delete_credentials time_now
    upsert_pending_deletion upsert_deletion unix cancel_if_not_started check_started
    delete_not_started started_exists
schedules = refl

schedule_account_deletion-Scheduled_example :
    Scheduled sample_crypto anna.username anna.password new_year scheduled 1769817600
schedule_account_deletion-Scheduled_example =
    schedule_account_deletion-Scheduled sample_crypto anna.username anna.password new_year scheduled
      1769817600 schedules

abbrev waiting : Backend
waiting = record with_anna {
  db = record with_anna.db {
    pending_account_deletions = row (codes "u0") 2000 ∷ row (codes "u1") 900 ∷ [];
  };
}

abbrev cancelled : Backend
cancelled = (cancel_account_deletion sample_crypto anna.username anna.password waiting).1

cancels :
    cancel_account_deletion sample_crypto anna.username anna.password waiting ≡ (ok tt, cancelled)
unfolding cancel_account_deletion default_deps continue ◌>>=◌ refuse_if handle handle_with pure
    raise run_with run_statement outcome_result query row_or get_user_by_username normalize_username
    valid_username valid_bytes valid_byte last_byte trim_space trim_func trim_left trim_right
    is_space to_lower to_lower_rune is_empty select_user_by_username exists find select update
    encode_hash decimal print_digits base64_encode base64_char base64_value base64_values
    base64_bytes base64_decode Option.bind scan_literal skip_space is_digit scan_digits scan_number
    scan_uint scan_field scan_params verify_decoded verify_parts verify_password split cons_head
    check_password hide_not_found is_user_not_found ◌=s=◌ verify_delete_credentials time_now
    upsert_pending_deletion upsert_deletion unix cancel_if_not_started check_started
    delete_not_started started_exists
cancels = refl

u1_new :
    exists (λ (d : PendingAccountDeletion). d.user_id =s= codes "u0") (row (codes "u1") 900 ∷ [])
    ≡ false
unfolding exists ◌=s=◌
u1_new = refl

none_in_nil : exists (λ (d : PendingAccountDeletion). d.user_id =s= codes "u1") [] ≡ false
unfolding exists
none_in_nil = refl

cancel_account_deletion-Cancelled_example :
    Cancelled sample_crypto anna.username anna.password waiting cancelled
cancel_account_deletion-Cancelled_example =
    cancel_account_deletion-Cancelled sample_crypto anna.username anna.password waiting cancelled
      (u1_new, (none_in_nil, tt)) cancels

abbrev claimed_row : PendingAccountDeletion
claimed_row = record (row (codes "u1") 900) { started_at = some 1000 }

claims : (claim_due_rows 50 1000 waiting.db).0 ≡ done (claimed_row ∷ [])
unfolding claim_due_rows due_rows order_by_delete_at insert_by_delete_at select is_due
claims = refl

claims_later :
    (claim_due_rows 50 3000 (claim_due_rows 50 1000 waiting.db).1).0
    ≡ done (record (row (codes "u0") 2000) { started_at = some 3000 } ∷ [])
unfolding claim_due_rows due_rows order_by_delete_at insert_by_delete_at select update is_due
    is_among exists ◌=s=◌
claims_later = refl

claim_due_rows-ClaimedAt_example :
    All (ClaimedAt 1000) (claimed_row ∷ []) × (length (claimed_row ∷ []) ≤ 50)
claim_due_rows-ClaimedAt_example =
    claim_due_rows-ClaimedAt 50 1000 waiting.db (claimed_row ∷ []) claims

claim_due_rows-once_example :
    All
      (λ d. is_among (claimed_row ∷ []) d ≡ false)
      (record (row (codes "u0") 2000) { started_at = some 3000 } ∷ [])
claim_due_rows-once_example =
    claim_due_rows-once 50 50 1000 3000 waiting.db (claimed_row ∷ [])
      (record (row (codes "u0") 2000) { started_at = some 3000 } ∷ []) claims claims_later

not_due :
    exists
      (λ d. trim_space d.user_id =s= codes "u0" && is_due 1000 d)
      waiting.db.pending_account_deletions
    ≡ false
unfolding exists is_due ◌=s=◌ trim_space trim_func trim_left trim_right is_space
not_due = refl

process_due_account_deletions-SameUser_example :
    find (user_has_id (codes "u0")) (process_due_account_deletions sample_crypto waiting).1.db.users
    ≡ find (user_has_id (codes "u0")) waiting.db.users
process_due_account_deletions-SameUser_example =
    process_due_account_deletions-SameUser (codes "u0") sample_crypto waiting not_due

-- Both deletions are due.
abbrev overdue : Backend
overdue = record waiting { db_now = 3000 }

u0_due :
    exists (λ d. of_user (codes "u0") d && is_due 3000 d) overdue.db.pending_account_deletions
    ≡ true
unfolding exists is_due ◌=s=◌ trim_space trim_func trim_left trim_right is_space
u0_due = refl

not_many : length (select (is_due 3000) overdue.db.pending_account_deletions) ≤ 50
unfolding select is_due
not_many = omega arith

u0_given : is_empty (codes "u0") ≡ false
unfolding is_empty
u0_given = refl

process_due_account_deletions-Deleted_example :
    exists
      (user_has_id (codes "u0"))
      (process_due_account_deletions sample_crypto overdue).1.db.users
    ≡ false
process_due_account_deletions-Deleted_example =
    process_due_account_deletions-Deleted (codes "u0") sample_crypto overdue
      (record { ready = refl; no_faults = refl }) u0_given u0_due not_many
