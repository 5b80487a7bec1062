-- ===== src/Auth/Race/Tests.antt =====
-- Two logins by one token of which both read before either writes.
use ppgram.Prelude.{false, none, codes, is_empty, ◌≡◌, refl, ◌=s=◌}
use ppgram.Text.{trim_space, trim_left, trim_right, trim_func, is_space}
use ppgram.Table.{find, exists, update}
use ppgram.Errors.{ok}
use ppgram.Database.{UserToken, token_has_hash}
use ppgram.Database.Tokens.{is_active, select_active_token, rotate_token}
use ppgram.Database.Deletions.{deletion_exists}
use ppgram.Backend.{
  Backend, pure, raise, continue, ◌>>=◌, handle, handle_with, refuse_if, run_with, run_statement,
  outcome_result, query, fill, random_result, read_random,
}
use ppgram.Repository.{
  row_or, get_active_by_token_hash, rotate_user_token, exists_active_by_user_id,
}
use ppgram.Password.{hash_token, hex_encode, hex_digit, generate_session_token_pair}
use ppgram.Auth.{AuthResult, default_deps, hide_no_token, reject_if_pending_deletion}
use ppgram.Auth.Samples.{sample_crypto, with_token, result_of}
use ppgram.Auth.Race.{login_reads, login_writes, login_by_token-race}

abbrev stored : UserToken
stored = record {
  token_id = 1;
  user_id = codes "u0";
  token_hash = codes "tok";
  device_id = codes "d1";
  device_name = codes "phone";
  issued_at = 900;
  last_used_at = 900;
  expires_at = none;
  revoked_at = none;
}

abbrev after_first : Backend
after_first = (login_writes sample_crypto stored with_token).1

abbrev first : AuthResult
first = result_of (login_writes sample_crypto stored with_token).0

abbrev after_second : Backend
after_second = (login_writes sample_crypto stored after_first).1

abbrev second : AuthResult
second = result_of (login_writes sample_crypto stored after_first).0

reads : login_reads sample_crypto (codes " tok") with_token ≡ (ok stored, with_token)
unfolding login_reads default_deps continue ◌>>=◌ refuse_if handle handle_with pure raise run_with
    run_statement outcome_result query row_or get_active_by_token_hash exists_active_by_user_id
    hash_token trim_space trim_func trim_left trim_right is_space is_empty select_active_token
    is_active deletion_exists exists find reject_if_pending_deletion hide_no_token ◌=s=◌
reads = refl

writes : login_writes sample_crypto stored with_token ≡ (ok first, after_first)
unfolding login_writes continue ◌>>=◌ refuse_if handle handle_with pure raise run_with run_statement
    outcome_result query fill random_result read_random rotate_user_token
    generate_session_token_pair hash_token hex_encode hex_digit is_empty rotate_token exists update
    hide_no_token ◌=s=◌
writes = refl

writes_again : login_writes sample_crypto stored after_first ≡ (ok second, after_second)
unfolding login_writes continue ◌>>=◌ refuse_if handle handle_with pure raise run_with run_statement
    outcome_result query fill random_result read_random rotate_user_token
    generate_session_token_pair hash_token hex_encode hex_digit is_empty rotate_token exists update
    hide_no_token ◌=s=◌
writes_again = refl

other_hash :
    (hash_token sample_crypto second.session_token =s= hash_token sample_crypto first.session_token)
    ≡ false
unfolding login_writes continue ◌>>=◌ refuse_if handle handle_with pure raise run_with run_statement
    outcome_result query fill random_result read_random rotate_user_token
    generate_session_token_pair hash_token hex_encode hex_digit is_empty rotate_token exists update
    hide_no_token ◌=s=◌
other_hash = refl

login_by_token-race_example :
    (stored ≡ stored)
    × (exists
          (token_has_hash (hash_token sample_crypto first.session_token))
          after_second.db.user_tokens
        ≡ false)
login_by_token-race_example =
    login_by_token-race sample_crypto (codes " tok") with_token with_token with_token after_first
      after_second stored stored first second reads reads writes writes_again other_hash
