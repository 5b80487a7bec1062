-- ===== src/Session/Well.antt =====
-- The sessions and the tables together, under the functions of session.go.
use ppgram.Prelude.{ℕ, List, [], ◌∷◌, Option, none, some, GoString, is_empty, ◌||◌}
use ppgram.Prelude.Maps.{lookup}
use ppgram.Text.{trim_space}
use ppgram.Errors.{Result, ok, err}
use ppgram.Database.{User}
use ppgram.Database.Invariant.{IsConsistent}
use ppgram.Backend.{Backend}
use ppgram.Repository.{get_user_by_id}
use ppgram.Repository.Keeps.{Keeps-get_user_by_id}
use ppgram.Session.{
  Devices, Server, enter_new, enter, authenticate_session, authenticate, revoke, detach_state,
  detach_user_sessions, revoke_all, invalidate_user_sessions,
}
use ppgram.Session.Revocation.{
  AllSound, if_cases, revoked_session-IsSound, set_session-IsSound, authenticate-AllSound,
}

-- Every session is sound, and the tables are consistent.
pub record IsWell (s : Server) : Type 0 where
  pub sessions : AllSound s
  pub tables : IsConsistent s.backend.db

enter_new-tables :
    (p : ℕ) (user_id device_id : GoString) (r : Result User × Backend) (s : Server)
    → IsConsistent r.1.db
    → IsConsistent (enter_new p user_id device_id r s).backend.db
unfolding enter_new
enter_new-tables p user_id device_id (ok user, b) s h = h
enter_new-tables p user_id device_id (err e, b) s h = h

enter-tables :
    (p : ℕ) (user_id device_id : GoString) (o : Option Devices) (s : Server)
    → IsConsistent s.backend.db
    → IsConsistent (enter p user_id device_id o s).backend.db
unfolding enter
enter-tables p user_id device_id (some devices) s h = h
enter-tables p user_id device_id none s h =
    if_cases (λ (x : Server). IsConsistent x.backend.db) s.backend.db_ready
      (enter_new p user_id device_id (get_user_by_id user_id s.backend) s) s
      (λ r.
        enter_new-tables p user_id device_id (get_user_by_id user_id s.backend) s
          ((Keeps-get_user_by_id user_id).at s.backend h))
      (λ r. h)

authenticate-tables :
    (session : Option ℕ) (user_id device_id device_name : GoString) (s : Server)
    → IsConsistent s.backend.db
    → IsConsistent (authenticate session user_id device_id device_name s).backend.db
unfolding authenticate authenticate_session
authenticate-tables none user_id device_id device_name s h = h
authenticate-tables (some p) user_id device_id device_name s h =
    if_cases (λ (x : Server). IsConsistent x.backend.db)
      (is_empty (trim_space user_id) || is_empty (trim_space device_id)) s _ (λ r. h)
      (λ r.
        enter-tables p (trim_space user_id) (trim_space device_id)
          (lookup (trim_space user_id) s.user_states) _ h)

pub authenticate-IsWell :
    (session : Option ℕ) (user_id device_id device_name : GoString) (s : Server)
    → IsWell s
    → IsWell (authenticate session user_id device_id device_name s)
authenticate-IsWell session user_id device_id device_name s h = record {
  sessions = authenticate-AllSound session user_id device_id device_name s h.sessions;
  tables = authenticate-tables session user_id device_id device_name s h.tables;
}

revoke_all-IsWell : (ps : List ℕ) (s : Server) → IsWell s → IsWell (revoke_all ps s)
unfolding revoke_all revoke
revoke_all-IsWell [] s h = h
revoke_all-IsWell (p ∷ ps) s h = revoke_all-IsWell ps (revoke p s) (record {
  sessions =
      set_session-IsSound p _ s.sessions (revoked_session-IsSound (s.sessions p) (h.sessions p))
        h.sessions;
  tables = h.tables;
})

detach_state-IsWell :
    (user_id : GoString) (o : Option Devices) (s : Server)
    → IsWell s
    → IsWell (detach_state user_id o s).1
unfolding detach_state
detach_state-IsWell user_id none s h = h
detach_state-IsWell user_id (some devices) s h = record { sessions = h.sessions; tables = h.tables }

detach_user_sessions-IsWell :
    (user_id : GoString) (s : Server) → IsWell s → IsWell (detach_user_sessions user_id s).1
unfolding detach_user_sessions
detach_user_sessions-IsWell user_id s h =
    if_cases (λ (x : List ℕ × Server). IsWell x.1) (is_empty (trim_space user_id)) ([], s) _
      (λ r. h)
      (λ r.
        detach_state-IsWell (trim_space user_id) (lookup (trim_space user_id) s.user_states) s h)

pub invalidate_user_sessions-IsWell :
    (user_id : GoString) (s : Server) → IsWell s → IsWell (invalidate_user_sessions user_id s)
unfolding invalidate_user_sessions
invalidate_user_sessions-IsWell user_id s h =
    revoke_all-IsWell (detach_user_sessions user_id s).0 (detach_user_sessions user_id s).1
      (detach_user_sessions-IsWell user_id s h)
