-- ===== src/Auth/Tests.antt =====
-- Runs of server/auth/auth.go, and its theorems at concrete inputs.
use ppgram.Prelude.{true, false, [], ◌∷◌, none, some, codes, is_empty, ◌≡◌, refl, ◌=s=◌, ◌==◌}
use ppgram.Prelude.Maps.{lookup, insert, remove}
use mathlib.Core.Option
use ppgram.Text.{
  is_space, trim_left, trim_right, trim_func, trim_space, to_lower_rune, to_lower, split, cons_head,
}
use ppgram.Username.{normalize_username, valid_byte, valid_bytes, last_byte, valid_username}
use ppgram.Table.{find, exists}
use ppgram.Errors.{
  ok, err, is_user_not_found, invalid_credentials, invalid_token, account_pending_deletion,
}
use ppgram.Database.Users.{insert_user, select_user_by_username, username_exists}
use ppgram.Database.Tokens.{upsert_token, is_active, select_active_token, rotate_token}
use ppgram.Database.Deletions.{deletion_exists}
use ppgram.Backend.{
  Backend, pure, raise, continue, ◌>>=◌, handle, handle_with, refuse_if, run_with, run_statement,
  outcome_result, query, fill, random_result, read_random,
}
use ppgram.Repository.{
  row_or, create_user, get_user_by_username, is_username_available, upsert_active_token,
  get_active_by_token_hash, rotate_user_token, exists_active_by_user_id,
}
use ppgram.Cache.{
  call_with, redis_call, username_key, require_client, cached_username_exists, set_username,
}
use ppgram.Password.{
  print_digits, decimal, base64_char, base64_value, base64_encode, base64_values, base64_bytes,
  base64_decode, scan_literal, skip_space, is_digit, scan_digits, scan_number, scan_uint,
  scan_field, scan_params, encode_hash, hash_password, verify_decoded, verify_parts,
  verify_password, hex_digit, hex_encode, hash_token, generate_session_token_pair,
}
use ppgram.Auth.{
  AuthResult, default_deps, reject_if_pending_deletion, reject_if_cached, cache_username,
  issue_token, register, hide_not_found, check_password, login_by_credentials, hide_no_token,
  login_by_token,
}
use ppgram.Auth.Samples.{
  result_of, sample_crypto, anna, anna_wrong, anna_user, fresh, with_anna, with_token,
}
use ppgram.Auth.Register.{Registered, register-Registered}
use ppgram.Auth.Login.{login_name, LoggedIn, login_by_credentials-LoggedIn}
use ppgram.Auth.Refusals.{wrong_password, login_by_credentials-bad, login_by_credentials-pending}
use ppgram.Auth.TokenRefusals.{login_by_token-once}
use ppgram.Auth.TokenLogin.{Renewed, login_by_token-Renewed}
use ppgram.Database.{UserToken, user_has_name, deletion_of}

registers :
    register sample_crypto anna fresh
    ≡ (ok (result_of (register sample_crypto anna fresh).0), (register sample_crypto anna fresh).1)
unfolding register default_deps continue ◌>>=◌ refuse_if handle handle_with pure raise run_with
    run_statement outcome_result query fill random_result read_random row_or create_user
    is_username_available upsert_active_token call_with redis_call username_key require_client
    cached_username_exists set_username reject_if_cached cache_username issue_token hash_password
    generate_session_token_pair hash_token hex_encode hex_digit normalize_username valid_username
    valid_bytes valid_byte last_byte trim_space trim_func trim_left trim_right is_space to_lower
    to_lower_rune is_empty insert_user username_exists upsert_token exists find lookup insert remove
    encode_hash decimal print_digits base64_encode base64_char ◌=s=◌
registers = refl

register-Registered_example :
    Registered sample_crypto anna fresh
      (register sample_crypto anna fresh).1
      (result_of (register sample_crypto anna fresh).0)
register-Registered_example = register-Registered sample_crypto anna fresh _ _ tt registers

abbrev logged_in : Backend
logged_in = (login_by_credentials sample_crypto anna with_anna).1

abbrev login_result : AuthResult
login_result = result_of (login_by_credentials sample_crypto anna with_anna).0

logs_in : login_by_credentials sample_crypto anna with_anna ≡ (ok login_result, logged_in)
unfolding login_by_credentials default_deps continue ◌>>=◌ refuse_if handle handle_with pure raise
    run_with run_statement outcome_result query fill random_result read_random row_or
    get_user_by_username upsert_active_token exists_active_by_user_id issue_token
    generate_session_token_pair hash_token hex_encode hex_digit normalize_username valid_username
    valid_bytes valid_byte last_byte trim_space trim_func trim_left trim_right is_space to_lower
    to_lower_rune is_empty select_user_by_username upsert_token deletion_exists exists find
    encode_hash decimal print_digits base64_encode base64_char base64_value base64_values
    base64_bytes base64_decode Option.bind scan_literal skip_space is_digit scan_digits scan_number
    scan_uint scan_field scan_params verify_decoded verify_parts verify_password split cons_head
    check_password reject_if_pending_deletion hide_not_found is_user_not_found ◌=s=◌
logs_in = refl

login_by_credentials-LoggedIn_example : LoggedIn sample_crypto anna with_anna logged_in login_result
login_by_credentials-LoggedIn_example =
    login_by_credentials-LoggedIn sample_crypto anna with_anna logged_in login_result tt logs_in

anna_found :
    find (user_has_name (login_name sample_crypto anna)) with_anna.db.users ≡ some anna_user
unfolding find normalize_username trim_space trim_func trim_left trim_right is_space to_lower
    to_lower_rune ◌=s=◌
anna_found = refl

wrong : verify_password sample_crypto anna_wrong.password anna_user.password_hash ≡ ok false
unfolding default_deps continue ◌>>=◌ refuse_if handle handle_with pure raise run_with run_statement
    outcome_result query fill random_result read_random row_or get_user_by_username
    upsert_active_token exists_active_by_user_id issue_token generate_session_token_pair hash_token
    hex_encode hex_digit normalize_username valid_username valid_bytes valid_byte last_byte
    trim_space trim_func trim_left trim_right is_space to_lower to_lower_rune is_empty
    select_user_by_username upsert_token deletion_exists exists find encode_hash decimal
    print_digits base64_encode base64_char base64_value base64_values base64_bytes base64_decode
    Option.bind scan_literal skip_space is_digit scan_digits scan_number scan_uint scan_field
    scan_params verify_decoded verify_parts verify_password split cons_head check_password
    reject_if_pending_deletion hide_not_found is_user_not_found ◌=s=◌
wrong = refl

right : verify_password sample_crypto anna.password anna_user.password_hash ≡ ok true
unfolding default_deps continue ◌>>=◌ refuse_if handle handle_with pure raise run_with run_statement
    outcome_result query fill random_result read_random row_or get_user_by_username
    upsert_active_token exists_active_by_user_id issue_token generate_session_token_pair hash_token
    hex_encode hex_digit normalize_username valid_username valid_bytes valid_byte last_byte
    trim_space trim_func trim_left trim_right is_space to_lower to_lower_rune is_empty
    select_user_by_username upsert_token deletion_exists exists find encode_hash decimal
    print_digits base64_encode base64_char base64_value base64_values base64_bytes base64_decode
    Option.bind scan_literal skip_space is_digit scan_digits scan_number scan_uint scan_field
    scan_params verify_decoded verify_parts verify_password split cons_head check_password
    reject_if_pending_deletion hide_not_found is_user_not_found ◌=s=◌
right = refl

given : is_empty (trim_space anna.device_id) ≡ false
unfolding is_empty trim_space trim_func trim_left trim_right is_space
given = refl

login_by_credentials-bad_example :
    login_by_credentials sample_crypto anna_wrong with_anna ≡ (err invalid_credentials, with_anna)
login_by_credentials-bad_example =
    login_by_credentials-bad sample_crypto anna_wrong with_anna
      (record { ready = refl; no_faults = refl }) given
      (wrong_password anna_user anna_found (λ h. cc (wrong, h)))

abbrev waiting : Backend
waiting = record with_anna {
  db = record with_anna.db {
    pending_account_deletions =
        record { user_id = codes "u0"; scheduled_at = 900; delete_at = 2000; started_at = none }
        ∷ [];
  };
}

name_valid : valid_username (login_name sample_crypto anna) ≡ true
unfolding default_deps continue ◌>>=◌ refuse_if handle handle_with pure raise run_with run_statement
    outcome_result query fill random_result read_random row_or get_user_by_username
    upsert_active_token exists_active_by_user_id issue_token generate_session_token_pair hash_token
    hex_encode hex_digit normalize_username valid_username valid_bytes valid_byte last_byte
    trim_space trim_func trim_left trim_right is_space to_lower to_lower_rune is_empty
    select_user_by_username upsert_token deletion_exists exists find encode_hash decimal
    print_digits base64_encode base64_char base64_value base64_values base64_bytes base64_decode
    Option.bind scan_literal skip_space is_digit scan_digits scan_number scan_uint scan_field
    scan_params verify_decoded verify_parts verify_password split cons_head check_password
    reject_if_pending_deletion hide_not_found is_user_not_found ◌=s=◌
name_valid = refl

password_given : is_empty (trim_space anna.password) ≡ false
unfolding default_deps continue ◌>>=◌ refuse_if handle handle_with pure raise run_with run_statement
    outcome_result query fill random_result read_random row_or get_user_by_username
    upsert_active_token exists_active_by_user_id issue_token generate_session_token_pair hash_token
    hex_encode hex_digit normalize_username valid_username valid_bytes valid_byte last_byte
    trim_space trim_func trim_left trim_right is_space to_lower to_lower_rune is_empty
    select_user_by_username upsert_token deletion_exists exists find encode_hash decimal
    print_digits base64_encode base64_char base64_value base64_values base64_bytes base64_decode
    Option.bind scan_literal skip_space is_digit scan_digits scan_number scan_uint scan_field
    scan_params verify_decoded verify_parts verify_password split cons_head check_password
    reject_if_pending_deletion hide_not_found is_user_not_found ◌=s=◌
password_given = refl

id_given : is_empty (trim_space anna_user.id) ≡ false
unfolding default_deps continue ◌>>=◌ refuse_if handle handle_with pure raise run_with run_statement
    outcome_result query fill random_result read_random row_or get_user_by_username
    upsert_active_token exists_active_by_user_id issue_token generate_session_token_pair hash_token
    hex_encode hex_digit normalize_username valid_username valid_bytes valid_byte last_byte
    trim_space trim_func trim_left trim_right is_space to_lower to_lower_rune is_empty
    select_user_by_username upsert_token deletion_exists exists find encode_hash decimal
    print_digits base64_encode base64_char base64_value base64_values base64_bytes base64_decode
    Option.bind scan_literal skip_space is_digit scan_digits scan_number scan_uint scan_field
    scan_params verify_decoded verify_parts verify_password split cons_head check_password
    reject_if_pending_deletion hide_not_found is_user_not_found ◌=s=◌
id_given = refl

waits : exists (deletion_of (trim_space anna_user.id)) waiting.db.pending_account_deletions ≡ true
unfolding default_deps continue ◌>>=◌ refuse_if handle handle_with pure raise run_with run_statement
    outcome_result query fill random_result read_random row_or get_user_by_username
    upsert_active_token exists_active_by_user_id issue_token generate_session_token_pair hash_token
    hex_encode hex_digit normalize_username valid_username valid_bytes valid_byte last_byte
    trim_space trim_func trim_left trim_right is_space to_lower to_lower_rune is_empty
    select_user_by_username upsert_token deletion_exists exists find encode_hash decimal
    print_digits base64_encode base64_char base64_value base64_values base64_bytes base64_decode
    Option.bind scan_literal skip_space is_digit scan_digits scan_number scan_uint scan_field
    scan_params verify_decoded verify_parts verify_password split cons_head check_password
    reject_if_pending_deletion hide_not_found is_user_not_found ◌=s=◌
waits = refl

login_by_credentials-pending_example :
    login_by_credentials sample_crypto anna waiting ≡ (err account_pending_deletion, waiting)
login_by_credentials-pending_example =
    login_by_credentials-pending sample_crypto anna waiting anna_user
      (record { ready = refl; no_faults = refl }) name_valid password_given given anna_found right
      id_given waits

abbrev renewed : Backend
renewed = (login_by_token sample_crypto (codes " tok") with_token).1

abbrev renewed_result : AuthResult
renewed_result = result_of (login_by_token sample_crypto (codes " tok") with_token).0

renews : login_by_token sample_crypto (codes " tok") with_token ≡ (ok renewed_result, renewed)
unfolding login_by_token default_deps continue ◌>>=◌ refuse_if handle handle_with pure raise
    run_with run_statement outcome_result query fill random_result read_random row_or
    get_active_by_token_hash rotate_user_token exists_active_by_user_id issue_token
    generate_session_token_pair hash_token hex_encode hex_digit normalize_username valid_username
    valid_bytes valid_byte last_byte trim_space trim_func trim_left trim_right is_space to_lower
    to_lower_rune is_empty select_active_token is_active rotate_token deletion_exists exists find
    encode_hash decimal print_digits base64_encode base64_char base64_value base64_values
    base64_bytes base64_decode Option.bind scan_literal skip_space is_digit scan_digits scan_number
    scan_uint scan_field scan_params verify_decoded verify_parts verify_password split cons_head
    check_password reject_if_pending_deletion hide_no_token ◌=s=◌
renews = refl

other_hash :
    (hash_token sample_crypto renewed_result.session_token
      =s= hash_token sample_crypto (trim_space (codes " tok")))
    ≡ false
unfolding login_by_token default_deps continue ◌>>=◌ refuse_if handle handle_with pure raise
    run_with run_statement outcome_result query fill random_result read_random row_or
    get_active_by_token_hash rotate_user_token exists_active_by_user_id issue_token
    generate_session_token_pair hash_token hex_encode hex_digit normalize_username valid_username
    valid_bytes valid_byte last_byte trim_space trim_func trim_left trim_right is_space to_lower
    to_lower_rune is_empty select_active_token is_active rotate_token deletion_exists exists find
    encode_hash decimal print_digits base64_encode base64_char base64_value base64_values
    base64_bytes base64_decode Option.bind scan_literal skip_space is_digit scan_digits scan_number
    scan_uint scan_field scan_params verify_decoded verify_parts verify_password split cons_head
    check_password reject_if_pending_deletion hide_no_token ◌=s=◌
other_hash = refl

no_more_hashes : exists (λ (t : UserToken). t.token_hash =s= codes "tok") [] ≡ false
unfolding exists
no_more_hashes = refl

no_more_ids : exists (λ (t : UserToken). t.token_id == 1) [] ≡ false
unfolding exists
no_more_ids = refl

login_by_token-Renewed_example :
    Renewed sample_crypto (codes " tok") with_token renewed renewed_result
login_by_token-Renewed_example =
    login_by_token-Renewed sample_crypto (codes " tok") with_token renewed renewed_result
      (no_more_hashes, tt) (no_more_ids, tt) other_hash renews

token_given : is_empty (trim_space (codes " tok")) ≡ false
unfolding is_empty trim_space trim_func trim_left trim_right is_space
token_given = refl

hash_given : is_empty (hash_token sample_crypto (trim_space (codes " tok"))) ≡ false
unfolding is_empty hash_token trim_space trim_func trim_left trim_right is_space
hash_given = refl

still_ready : renewed.db_ready ≡ true
unfolding login_by_token default_deps continue ◌>>=◌ refuse_if handle handle_with pure raise
    run_with run_statement outcome_result query fill random_result read_random row_or
    get_active_by_token_hash rotate_user_token exists_active_by_user_id issue_token
    generate_session_token_pair hash_token hex_encode hex_digit normalize_username valid_username
    valid_bytes valid_byte last_byte trim_space trim_func trim_left trim_right is_space to_lower
    to_lower_rune is_empty select_active_token is_active rotate_token deletion_exists exists find
    encode_hash decimal print_digits base64_encode base64_char base64_value base64_values
    base64_bytes base64_decode Option.bind scan_literal skip_space is_digit scan_digits scan_number
    scan_uint scan_field scan_params verify_decoded verify_parts verify_password split cons_head
    check_password reject_if_pending_deletion hide_no_token ◌=s=◌
still_ready = refl

still_quiet : renewed.faults ≡ []
unfolding login_by_token default_deps continue ◌>>=◌ refuse_if handle handle_with pure raise
    run_with run_statement outcome_result query fill random_result read_random row_or
    get_active_by_token_hash rotate_user_token exists_active_by_user_id issue_token
    generate_session_token_pair hash_token hex_encode hex_digit normalize_username valid_username
    valid_bytes valid_byte last_byte trim_space trim_func trim_left trim_right is_space to_lower
    to_lower_rune is_empty select_active_token is_active rotate_token deletion_exists exists find
    encode_hash decimal print_digits base64_encode base64_char base64_value base64_values
    base64_bytes base64_decode Option.bind scan_literal skip_space is_digit scan_digits scan_number
    scan_uint scan_field scan_params verify_decoded verify_parts verify_password split cons_head
    check_password reject_if_pending_deletion hide_no_token ◌=s=◌
still_quiet = refl

login_by_token-once_example :
    login_by_token sample_crypto (codes " tok") renewed ≡ (err invalid_token, renewed)
login_by_token-once_example =
    login_by_token-once sample_crypto (codes " tok") with_token renewed renewed_result
      (no_more_hashes, tt) (no_more_ids, tt) other_hash token_given hash_given renews
      (record { ready = still_ready; no_faults = still_quiet })
