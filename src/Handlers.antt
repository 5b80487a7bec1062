-- ===== src/Handlers.antt =====
-- server/handlers and server/middleware/auth.go: what a request is answered, and what it does to the
-- sessions. A request is what `proto.Unmarshal` gives, or none where it fails.
pub mod Answers
pub mod Well
mod Tests
use ppgram.Prelude.{
  ℕ, Bool, true, false, not, ◌||◌, List, [], Option, none, some, GoString, codes, if◌then◌else◌,
}
use ppgram.Errors.{
  Error, Result, ok, err, invalid_username, invalid_credentials, invalid_token, username_taken,
  account_pending_deletion, account_deletion_in_progress, password_required, device_id_required,
  session_token_needed,
}
use ppgram.Backend.{Backend, Exec}
use ppgram.Repository.{exists_active_by_user_id}
use ppgram.Password.{Crypto}
use ppgram.Auth.{AuthCredentials, AuthResult, register, login_by_credentials, login_by_token}
use ppgram.Deletion.{schedule_account_deletion, cancel_account_deletion}
use ppgram.Session.{
  Server, authenticate, is_authenticated, session_user_id, invalidate_user_sessions,
}

abbrev pub code_ok : ℕ
code_ok = 0

abbrev pub code_bad_request : ℕ
code_bad_request = 1001

abbrev pub code_invalid_parameters : ℕ
code_invalid_parameters = 1003

abbrev pub code_unauthorized : ℕ
code_unauthorized = 2001

abbrev pub code_forbidden : ℕ
code_forbidden = 2002

abbrev pub code_invalid_credentials : ℕ
code_invalid_credentials = 2003

abbrev pub code_invalid_token : ℕ
code_invalid_token = 2004

abbrev pub code_username_taken : ℕ
code_username_taken = 2005

abbrev pub code_internal : ℕ
code_internal = 5001

pub data Body : Type 0 where
  no_body : Body
  auth_response : (session_token : GoString) → Body
  account_delete_response : (timestamp : ℕ) → Body

-- What `SendResponse` is called with.
pub record Response : Type 0 where
  pub status_code : ℕ
  pub message : GoString
  pub body : Body

abbrev pub send_code : ℕ → Response
send_code code = record { status_code = code; message = []; body = no_body }

abbrev pub send_status : ℕ → GoString → Response
send_status code message = record { status_code = code; message = message; body = no_body }

-- The errors of each service as the handlers tell them from each other.
unfoldable pub register_failure : Error → Response
register_failure invalid_username = send_status code_invalid_parameters (codes "invalid username")
register_failure password_required =
    send_status code_invalid_parameters (codes "password is required")
register_failure device_id_required =
    send_status code_invalid_parameters (codes "device_id is required")
register_failure username_taken = send_code code_username_taken
register_failure _ = send_code code_internal

unfoldable pub login_failure : Error → Response
login_failure device_id_required =
    send_status code_invalid_parameters (codes "device_id is required")
login_failure account_pending_deletion =
    send_status code_forbidden (codes "account pending deletion")
login_failure invalid_credentials = send_code code_invalid_credentials
login_failure _ = send_code code_internal

unfoldable pub token_failure : Error → Response
token_failure session_token_needed =
    send_status code_invalid_parameters (codes "session token must be provided")
token_failure account_pending_deletion =
    send_status code_forbidden (codes "account pending deletion")
token_failure invalid_token = send_code code_invalid_token
token_failure _ = send_code code_internal

unfoldable pub delete_failure : Error → Response
delete_failure invalid_credentials = send_code code_invalid_credentials
delete_failure _ = send_code code_internal

unfoldable pub cancel_failure : Error → Response
cancel_failure invalid_credentials = send_code code_invalid_credentials
cancel_failure account_deletion_in_progress =
    send_status code_forbidden (codes "account deletion already started")
cancel_failure _ = send_code code_internal

-- The end of the three handlers that log a session in.
unfoldable pub finish_login :
    (Error → Response) → Option ℕ → Result AuthResult × Backend → Server → Response × Server
finish_login failure session (err e, b) s = (failure e, record s { backend = b })
finish_login failure session (ok result, b) s = (
  record { status_code = code_ok; message = []; body = auth_response result.session_token },
  authenticate session result.user_id result.device_id result.device_name
      (record s { backend = b }),
)

-- `if c.Session != nil`
unfoldable pub invalidate_session : Option ℕ → Server → Server
invalidate_session none s = s
invalidate_session (some p) s = invalidate_user_sessions (session_user_id (some p) s) s

module _ (crypto : Crypto) (session : Option ℕ) where
  unfoldable pub handle_user_register : Option AuthCredentials → Server → Response × Server
  handle_user_register none s = (send_code code_bad_request, s)
  handle_user_register (some request) s =
      finish_login register_failure session (register crypto request s.backend) s

  -- The request of a login has no display name.
  unfoldable pub handle_user_login_by_credentials :
      Option AuthCredentials → Server → Response × Server
  handle_user_login_by_credentials none s = (send_code code_bad_request, s)
  handle_user_login_by_credentials (some request) s =
      finish_login login_failure session
        (login_by_credentials crypto (record request { display_name = [] }) s.backend) s

  unfoldable pub handle_user_login_by_token : Option GoString → Server → Response × Server
  handle_user_login_by_token none s = (send_code code_bad_request, s)
  handle_user_login_by_token (some session_token) s =
      finish_login token_failure session (login_by_token crypto session_token s.backend) s

  -- The end of `HandleAccountDelete`; the flag says whether `Send` succeeds.
  unfoldable pub finish_delete : Bool → Result ℕ × Backend → Server → Response × Server
  finish_delete sent (err e, b) s = (delete_failure e, record s { backend = b })
  finish_delete sent (ok timestamp, b) s =
      let answer : Response = record {
        status_code = code_ok;
        message = [];
        body = account_delete_response timestamp;
      } in
      if sent
      then (answer, invalidate_session session (record s { backend = b }))
      else (answer, record s { backend = b })

  unfoldable pub handle_account_delete :
      Bool → Option (GoString × GoString) → Server → Response × Server
  handle_account_delete sent none s = (send_code code_bad_request, s)
  handle_account_delete sent (some (username, password)) s =
      finish_delete sent (schedule_account_deletion crypto username password s.backend) s

  unfoldable pub finish_cancel : Result (Unit {0}) × Backend → Server → Response × Server
  finish_cancel (err e, b) s = (cancel_failure e, record s { backend = b })
  finish_cancel (ok u, b) s = (send_code code_ok, record s { backend = b })

  unfoldable pub handle_account_delete_cancel :
      Option (GoString × GoString) → Server → Response × Server
  handle_account_delete_cancel none s = (send_code code_bad_request, s)
  handle_account_delete_cancel (some (username, password)) s =
      finish_cancel (cancel_account_deletion crypto username password s.backend) s

-- What `AuthMiddleware` does: answer itself, or go on to `c.Next()`.
pub data Passage : Type 0 where
  answers : Response → Passage
  goes_on : Passage

unfoldable pub after_pending : Result Bool × Backend → Server → Passage × Server
after_pending (err e, b) s = (answers (send_code code_internal), record s { backend = b })
after_pending (ok true, b) s = (answers (send_code code_unauthorized), record s { backend = b })
after_pending (ok false, b) s = (goes_on, record s { backend = b })

unfoldable pub auth_middleware : Option ℕ → Server → Passage × Server
auth_middleware session s =
    if not (is_authenticated session s)
    then (answers (send_code code_unauthorized), s)
    else if not s.backend.db_ready
    then (answers (send_code code_internal), s)
    else after_pending (exists_active_by_user_id (session_user_id session s) s.backend) s
