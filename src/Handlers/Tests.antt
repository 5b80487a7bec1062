-- ===== src/Handlers/Tests.antt =====
-- The handlers and the middleware at concrete requests.
use ppgram.Prelude.{
  Bool, true, false, ◌==◌, [], ◌∷◌, map, none, some, GoString, codes, is_empty, if◌then◌else◌, ◌≡◌,
  refl, ◌=s=◌,
}
use ppgram.Prelude.Maps.{lookup}
use ppgram.Text.{trim_space, trim_func, trim_left, trim_right, is_space, to_lower, to_lower_rune}
use ppgram.Username.{normalize_username, valid_username, valid_bytes, valid_byte, last_byte}
use ppgram.Table.{exists}
use ppgram.Database.{deletion_of}
use ppgram.Database.Deletions.{deletion_exists}
use ppgram.Backend.{continue, ◌>>=◌, refuse_if, query, run_statement, run_with, outcome_result}
use ppgram.Repository.{exists_active_by_user_id}
use ppgram.Auth.{AuthCredentials}
use ppgram.Auth.Login.{login_name}
use ppgram.Auth.Refusals.{bad_name}
use ppgram.Auth.Samples.{sample_crypto, anna, with_anna}
use ppgram.Session.{DeviceSession, Devices, Server, pointer, is_authenticated, session_user_id}
use ppgram.Session.Revocation.{IsSound, AllSound, is_in}
use ppgram.Handlers.{
  send_code, code_invalid_credentials, goes_on, after_pending, auth_middleware,
  handle_user_login_by_credentials, handle_account_delete,
}
use ppgram.Handlers.Answers.{
  handle_user_login_by_credentials-bad, auth_middleware-goes_on, handle_account_delete-sessions,
}

abbrev session_of : GoString → DeviceSession
session_of user_id = record {
  user_id = user_id;
  device_id = codes "d1";
  device_name = [];
  conn = none;
  revoked = false;
  channel_closed = false;
}

abbrev devices_of_u5 : Devices
devices_of_u5 = (codes "d1", 5) ∷ []

-- Session 5 is that of another user, all others are those of the user of the sample.
abbrev two_users : Server
two_users = record {
  user_states = (codes "u5", devices_of_u5) ∷ (codes "u0", (codes "d1", 3) ∷ []) ∷ [];
  sessions = λ p. if p == 5 then session_of (codes "u5") else session_of (codes "u0");
  closed = [];
  backend = with_anna;
}

either-IsSound :
    (t : Bool) → IsSound (if t then session_of (codes "u5") else session_of (codes "u0"))
either-IsSound true = record { woken = refl; nobody = λ h. cc h }
either-IsSound false = record { woken = refl; nobody = λ h. cc h }

two_users-AllSound : AllSound two_users
two_users-AllSound p = either-IsSound (p == 5)

abbrev bad_request : AuthCredentials
bad_request = record anna { username = codes "_" }

device_given : is_empty (trim_space bad_request.device_id) ≡ false
unfolding is_empty trim_space trim_func trim_left trim_right is_space
device_given = refl

name_refused : valid_username (login_name sample_crypto bad_request) ≡ false
unfolding normalize_username valid_username valid_bytes valid_byte last_byte trim_space trim_func
    trim_left trim_right is_space to_lower to_lower_rune
name_refused = refl

handle_user_login_by_credentials-bad_example :
    handle_user_login_by_credentials sample_crypto (some 3) (some bad_request) two_users
    ≡ (send_code code_invalid_credentials, two_users)
handle_user_login_by_credentials-bad_example =
    handle_user_login_by_credentials-bad sample_crypto (some 3) bad_request two_users
      (record { ready = refl; no_faults = refl }) device_given (bad_name name_refused)

passes : (auth_middleware (some 3) two_users).0 ≡ goes_on
unfolding auth_middleware after_pending is_authenticated session_user_id is_empty
    exists_active_by_user_id deletion_exists exists continue ◌>>=◌ refuse_if query run_statement
    run_with outcome_result trim_space trim_func trim_left trim_right is_space
passes = refl

lets_through :
    (is_authenticated (some 3) two_users ≡ true)
    × (exists
          (deletion_of (trim_space (session_user_id (some 3) two_users)))
          two_users.backend.db.pending_account_deletions
        ≡ false)
lets_through = auth_middleware-goes_on (some 3) two_users passes

user_given : is_empty (trim_space (session_user_id (some 5) two_users)) ≡ false
unfolding is_empty session_user_id trim_space trim_func trim_left trim_right is_space
user_given = refl

found :
    lookup (trim_space (session_user_id (some 5) two_users)) two_users.user_states
    ≡ some devices_of_u5
unfolding lookup session_user_id trim_space trim_func trim_left trim_right is_space ◌=s=◌
found = refl

not_there : is_in 3 (map pointer devices_of_u5) ≡ false
unfolding exists
not_there = refl

handle_account_delete-sessions_example :
    (handle_account_delete sample_crypto
        (some 5)
        true
        (some (anna.username, anna.password))
        two_users).1.sessions
      3
    ≡ two_users.sessions 3
handle_account_delete-sessions_example =
    handle_account_delete-sessions sample_crypto 5 3 devices_of_u5 true
      (some (anna.username, anna.password)) two_users two_users-AllSound user_given found not_there
