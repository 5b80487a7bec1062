-- ===== src/Handlers/Well.antt =====
-- The handlers and the middleware keep the sessions sound and the tables consistent.
use ppgram.Prelude.{ℕ, Bool, true, false, not, [], Option, none, some, GoString}
use ppgram.Errors.{Error, Result, ok, err}
use ppgram.Database.Invariant.{IsConsistent}
use ppgram.Backend.{Backend}
use ppgram.Repository.Keeps.{Keeps-exists_active_by_user_id}
use ppgram.Password.{Crypto}
use ppgram.Auth.{AuthCredentials, AuthResult}
use ppgram.Service.Invariant.{
  Keeps-register, Keeps-login_by_credentials, Keeps-login_by_token, Keeps-schedule_account_deletion,
  Keeps-cancel_account_deletion,
}
use ppgram.Session.{Server, is_authenticated, session_user_id}
use ppgram.Session.Revocation.{if_cases}
use ppgram.Session.Well.{IsWell, authenticate-IsWell, invalidate_user_sessions-IsWell}
use ppgram.Handlers.{
  Response, finish_login, invalidate_session, handle_user_register,
  handle_user_login_by_credentials, handle_user_login_by_token, finish_delete,
  handle_account_delete, finish_cancel, handle_account_delete_cancel, Passage, after_pending,
  auth_middleware,
}

finish_login-IsWell :
    (failure : Error → Response) (session : Option ℕ) (r : Result AuthResult × Backend) (s : Server)
    → IsWell s
    → IsConsistent r.1.db
    → IsWell (finish_login failure session r s).1
unfolding finish_login
finish_login-IsWell failure session (err e, b) s h k = record { sessions = h.sessions; tables = k }
finish_login-IsWell failure session (ok result, b) s h k =
    authenticate-IsWell session result.user_id result.device_id result.device_name
      (record s { backend = b }) (record { sessions = h.sessions; tables = k })

module _ (crypto : Crypto) (session : Option ℕ) where
  pub handle_user_register-IsWell :
      (request : Option AuthCredentials) (s : Server)
      → IsWell s
      → IsWell (handle_user_register crypto session request s).1
  unfolding handle_user_register
  handle_user_register-IsWell none s h = h
  handle_user_register-IsWell (some request) s h =
      finish_login-IsWell _ session _ s h ((Keeps-register crypto request).at s.backend h.tables)

  pub handle_user_login_by_credentials-IsWell :
      (request : Option AuthCredentials) (s : Server)
      → IsWell s
      → IsWell (handle_user_login_by_credentials crypto session request s).1
  unfolding handle_user_login_by_credentials
  handle_user_login_by_credentials-IsWell none s h = h
  handle_user_login_by_credentials-IsWell (some request) s h = finish_login-IsWell _ session _ s h (
      (Keeps-login_by_credentials crypto (record request { display_name = [] })).at s.backend
        h.tables)

  pub handle_user_login_by_token-IsWell :
      (request : Option GoString) (s : Server)
      → IsWell s
      → IsWell (handle_user_login_by_token crypto session request s).1
  unfolding handle_user_login_by_token
  handle_user_login_by_token-IsWell none s h = h
  handle_user_login_by_token-IsWell (some token) s h =
      finish_login-IsWell _ session _ s h
        ((Keeps-login_by_token crypto token).at s.backend h.tables)

  invalidate_session-IsWell :
      (o : Option ℕ) (s : Server) → IsWell s → IsWell (invalidate_session o s)
  unfolding invalidate_session
  invalidate_session-IsWell none s h = h
  invalidate_session-IsWell (some p) s h =
      invalidate_user_sessions-IsWell (session_user_id (some p) s) s h

  finish_delete-IsWell :
      (sent : Bool) (r : Result ℕ × Backend) (s : Server)
      → IsWell s
      → IsConsistent r.1.db
      → IsWell (finish_delete crypto session sent r s).1
  unfolding finish_delete
  finish_delete-IsWell sent (err e, b) s h k = record { sessions = h.sessions; tables = k }
  finish_delete-IsWell true (ok timestamp, b) s h k =
      invalidate_session-IsWell session (record s { backend = b })
        (record { sessions = h.sessions; tables = k })
  finish_delete-IsWell false (ok timestamp, b) s h k = record { sessions = h.sessions; tables = k }

  pub handle_account_delete-IsWell :
      (sent : Bool) (request : Option (GoString × GoString)) (s : Server)
      → IsWell s
      → IsWell (handle_account_delete crypto session sent request s).1
  unfolding handle_account_delete
  handle_account_delete-IsWell sent none s h = h
  handle_account_delete-IsWell sent (some (username, password)) s h =
      finish_delete-IsWell sent _ s h
        ((Keeps-schedule_account_deletion crypto username password).at s.backend h.tables)

  finish_cancel-IsWell :
      (r : Result (Unit {0}) × Backend) (s : Server)
      → IsWell s
      → IsConsistent r.1.db
      → IsWell (finish_cancel crypto session r s).1
  unfolding finish_cancel
  finish_cancel-IsWell (err e, b) s h k = record { sessions = h.sessions; tables = k }
  finish_cancel-IsWell (ok u, b) s h k = record { sessions = h.sessions; tables = k }

  pub handle_account_delete_cancel-IsWell :
      (request : Option (GoString × GoString)) (s : Server)
      → IsWell s
      → IsWell (handle_account_delete_cancel crypto session request s).1
  unfolding handle_account_delete_cancel
  handle_account_delete_cancel-IsWell none s h = h
  handle_account_delete_cancel-IsWell (some (username, password)) s h =
      finish_cancel-IsWell _ s h
        ((Keeps-cancel_account_deletion crypto username password).at s.backend h.tables)

after_pending-IsWell :
    (r : Result Bool × Backend) (s : Server)
    → IsWell s
    → IsConsistent r.1.db
    → IsWell (after_pending r s).1
unfolding after_pending
after_pending-IsWell (err e, b) s h k = record { sessions = h.sessions; tables = k }
after_pending-IsWell (ok true, b) s h k = record { sessions = h.sessions; tables = k }
after_pending-IsWell (ok false, b) s h k = record { sessions = h.sessions; tables = k }

pub auth_middleware-IsWell :
    (session : Option ℕ) (s : Server) → IsWell s → IsWell (auth_middleware session s).1
unfolding auth_middleware
auth_middleware-IsWell session s h =
    if_cases (λ (x : Passage × Server). IsWell x.1) (not (is_authenticated session s)) _ _ (λ r. h)
      (λ r.
        if_cases (λ (x : Passage × Server). IsWell x.1) (not s.backend.db_ready) _ _ (λ r'. h)
          (λ r'.
            after_pending-IsWell _ s h
              ((Keeps-exists_active_by_user_id (session_user_id session s)).at s.backend h.tables)))
