-- ===== src/Handlers/Answers.antt =====
-- What the handlers and the middleware answer, and which sessions they change.
use ppgram.Prelude.{
  ℕ, Bool, true, false, not, [], map, Option, none, some, GoString, is_empty, if◌then◌else◌, ◌≡◌,
  refl, ap, arith,
}
use ppgram.Prelude.Maps.{lookup}
use ppgram.Text.{trim_space}
use ppgram.Table.{exists}
use ppgram.Errors.{Result, ok, err}
use ppgram.Database.{deletion_of}
use ppgram.Backend.{Backend}
use ppgram.Backend.Returns.{Returns}
use ppgram.Repository.{exists_active_by_user_id}
use ppgram.Repository.Returns.{exists_active_by_user_id-Returns}
use ppgram.Password.{Crypto}
use ppgram.Auth.{AuthCredentials}
use ppgram.Auth.Refusals.{Steady, BadCredentials, login_by_credentials-bad}
use ppgram.Session.{Devices, Server, pointer, is_authenticated, session_user_id}
use ppgram.Session.Revocation.{AllSound, is_in, invalidate_user_sessions-Invalidated}
use ppgram.Handlers.{
  Response, send_code, code_invalid_credentials, code_unauthorized, code_internal, login_failure,
  finish_login, handle_user_login_by_credentials, invalidate_session, finish_delete,
  handle_account_delete, Passage, answers, goes_on, after_pending, auth_middleware,
}

-- With the database there and connections that work, and a device id given, wrong credentials of
-- any kind are answered with the one code for invalid credentials and no message, and change
-- neither the tables nor the sessions.
pub handle_user_login_by_credentials-bad :
    (crypto : Crypto) (session : Option ℕ) (request : AuthCredentials) (s : Server)
    → Steady s.backend
    → is_empty (trim_space request.device_id) ≡ false
    → BadCredentials crypto (record request { display_name = [] }) s.backend
    → handle_user_login_by_credentials crypto session (some request) s
      ≡ (send_code code_invalid_credentials, s)
unfolding handle_user_login_by_credentials finish_login login_failure
handle_user_login_by_credentials-bad crypto session request s steady device bad =
    ap (λ r. finish_login login_failure session r s)
      (login_by_credentials-bad crypto (record request { display_name = [] }) s.backend steady
        device bad)

after_pending-goes_on :
    (r : Result Bool × Backend) (s : Server) → (after_pending r s).0 ≡ goes_on → r ≡ (ok false, r.1)
unfolding after_pending
after_pending-goes_on (err e, b) s h = cc h
after_pending-goes_on (ok true, b) s h = cc h
after_pending-goes_on (ok false, b) s h = refl

guarded :
    (t u : Bool) (x y : Response) (rest : Passage × Server) (s : Server)
    → (if t then (answers x, s) else if u then (answers y, s) else rest).0 ≡ goes_on
    → (t ≡ false) × (rest.0 ≡ goes_on)
guarded true u x y rest s h = cc h
guarded false true x y rest s h = cc h
guarded false false x y rest s h = (refl, h)

-- If the middleware lets a request through, its session is authenticated and the session's user
-- has no pending deletion.
pub auth_middleware-goes_on :
    (session : Option ℕ) (s : Server)
    → (auth_middleware session s).0 ≡ goes_on
    → (is_authenticated session s ≡ true)
      × (exists
            (deletion_of (trim_space (session_user_id session s)))
            s.backend.db.pending_account_deletions
          ≡ false)
unfolding auth_middleware
auth_middleware-goes_on session s h =
    let looked = exists_active_by_user_id (session_user_id session s) s.backend in
    let (known, rest) =
      guarded (not (is_authenticated session s)) (not s.backend.db_ready)
        (send_code code_unauthorized) (send_code code_internal) (after_pending looked s) s h in
    let asked : Returns (exists_active_by_user_id (session_user_id session s)) s.backend false
        looked.1 =
      after_pending-goes_on looked s rest in
    (ground arith, (exists_active_by_user_id-Returns (session_user_id session s) s.backend asked).0)

module _ (crypto : Crypto) (p q : ℕ) (devices : Devices) where
  -- Sessions that are not registered for the user of the session that asks.
  finish_delete-sessions :
      (sent : Bool) (r : Result ℕ × Backend) (s : Server)
      → AllSound s
      → is_empty (trim_space (session_user_id (some p) s)) ≡ false
      → lookup (trim_space (session_user_id (some p) s)) s.user_states ≡ some devices
      → is_in q (map pointer devices) ≡ false
      → (finish_delete crypto (some p) sent r s).1.sessions q ≡ s.sessions q
  unfolding finish_delete invalidate_session
  finish_delete-sessions sent (err e, b) s sound given found absent = refl
  finish_delete-sessions false (ok timestamp, b) s sound given found absent = refl
  finish_delete-sessions true (ok timestamp, b) s sound given found absent =
      unfold session_user_id in
      (invalidate_user_sessions-Invalidated (session_user_id (some p) s) devices
          (record s { backend = b }) sound given found).kept_sessions
        q absent

  -- If every session is sound and the user of the requesting session has a state, a request to
  -- delete any account changes no session that is not in that state, whichever account the
  -- request names.
  pub handle_account_delete-sessions :
      (sent : Bool) (request : Option (GoString × GoString)) (s : Server)
      → AllSound s
      → is_empty (trim_space (session_user_id (some p) s)) ≡ false
      → lookup (trim_space (session_user_id (some p) s)) s.user_states ≡ some devices
      → is_in q (map pointer devices) ≡ false
      → (handle_account_delete crypto (some p) sent request s).1.sessions q ≡ s.sessions q
  unfolding handle_account_delete
  handle_account_delete-sessions sent none s sound given found absent = refl
  handle_account_delete-sessions sent (some (username, password)) s sound given found absent =
      finish_delete-sessions sent _ s sound given found absent
