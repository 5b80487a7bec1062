-- ===== src/Session.antt =====
-- server/core/session/session.go: the sessions of the devices of a user. A session is a pointer,
-- shared by the connection and by the maps of the registry; the calls run one after the other.
pub mod Revocation
pub mod Identity
pub mod Samples
pub mod Well
mod Tests
use ppgram.Prelude.{
  ℕ, Bool, true, false, not, ◌&&◌, ◌||◌, ◌==◌, List, [], ◌∷◌, ◌++◌, map, Option, none, some,
  GoString, is_empty, if◌then◌else◌,
}
use ppgram.Prelude.Maps.{lookup, insert, remove}
use ppgram.Text.{trim_space}
use ppgram.Errors.{Error, Result, ok, err}
use ppgram.Database.{User}
use ppgram.Backend.{Backend}
use ppgram.Repository.{get_user_by_id}

-- The revocation channel is the one that `Revoked` gives; `channel_closed` says whether its readers
-- have been woken.
pub record DeviceSession : Type 0 where
  pub user_id : GoString
  pub device_id : GoString
  pub device_name : GoString
  pub conn : Option ℕ
  pub revoked : Bool
  pub channel_closed : Bool

-- The map `devices` of a `UserState`.
abbrev pub Devices : Type 0
Devices = List (GoString × ℕ)

-- `userStates`, the sessions by their pointers, the connections that were closed, and the database.
pub record Server : Type 0 where
  pub user_states : List (GoString × Devices)
  pub sessions : ℕ → DeviceSession
  pub closed : List ℕ
  pub backend : Backend

unfoldable pub new_device_session : Option ℕ → DeviceSession
new_device_session connection = record {
  user_id = [];
  device_id = [];
  device_name = [];
  conn = connection;
  revoked = false;
  channel_closed = false;
}

-- A write to a session.
abbrev pub set_session : ℕ → DeviceSession → (ℕ → DeviceSession) → ℕ → DeviceSession
set_session p session sessions q = if q == p then session else sessions q

-- What `Authenticate` writes while it holds the session's lock; a revoked session gets a new channel.
unfoldable pub identify : GoString → GoString → GoString → DeviceSession → DeviceSession
identify user_id device_id device_name s = record {
  user_id = user_id;
  device_id = device_id;
  device_name = device_name;
  conn = s.conn;
  revoked = false;
  channel_closed = if s.revoked then false else s.channel_closed;
}

-- The end of `Authenticate`, with the devices of the user.
abbrev pub enter_device : ℕ → GoString → GoString → Devices → Server → Server
enter_device p user_id device_id devices s = record s {
  user_states = insert user_id (insert device_id p devices) s.user_states;
}

-- What `GetUserByID` answers when there is no state of the user yet.
unfoldable pub enter_new : ℕ → GoString → GoString → Result User × Backend → Server → Server
enter_new p user_id device_id (ok user, b) s =
    enter_device p user_id device_id [] (record s { backend = b })
enter_new p user_id device_id (err e, b) s = record s { backend = b }

unfoldable pub enter : ℕ → GoString → GoString → Option Devices → Server → Server
enter p user_id device_id (some devices) s = enter_device p user_id device_id devices s
enter p user_id device_id none s =
    if s.backend.db_ready
    then enter_new p user_id device_id (get_user_by_id user_id s.backend) s
    else s

-- `Authenticate` on a session that is not nil.
unfoldable pub authenticate_session : ℕ → GoString → GoString → GoString → Server → Server
authenticate_session p user_id device_id device_name s =
    let written = record s {
      sessions = set_session p (identify user_id device_id device_name (s.sessions p)) s.sessions;
    } in
    if is_empty user_id || is_empty device_id
    then s
    else enter p user_id device_id (lookup user_id s.user_states) written

unfoldable pub authenticate : Option ℕ → GoString → GoString → GoString → Server → Server
authenticate none user_id device_id device_name s = s
authenticate (some p) user_id device_id device_name s =
    authenticate_session p (trim_space user_id) (trim_space device_id) (trim_space device_name) s

unfoldable pub is_authenticated : Option ℕ → Server → Bool
is_authenticated none s = false
is_authenticated (some p) s =
    not (is_empty (s.sessions p).user_id) && not (is_empty (s.sessions p).device_id)

-- `UserID`
unfoldable pub session_user_id : Option ℕ → Server → GoString
session_user_id none s = []
session_user_id (some p) s = (s.sessions p).user_id

unfoldable pub is_revoked : Option ℕ → Server → Bool
is_revoked none s = true
is_revoked (some p) s = (s.sessions p).revoked

-- `Revoke` on the session.
unfoldable pub revoked_session : DeviceSession → DeviceSession
revoked_session s = if s.revoked then s else record {
  user_id = [];
  device_id = [];
  device_name = [];
  conn = s.conn;
  revoked = true;
  channel_closed = true;
}

unfoldable pub revoke : ℕ → Server → Server
revoke p s = record s { sessions = set_session p (revoked_session (s.sessions p)) s.sessions }

abbrev pub pointer : GoString × ℕ → ℕ
pointer (device_id, p) = p

-- The sessions of a state that was found, and the registry without it.
unfoldable pub detach_state : GoString → Option Devices → Server → List ℕ × Server
detach_state user_id none s = ([], s)
detach_state user_id (some devices) s =
    (map pointer devices, record s { user_states = remove user_id s.user_states })

unfoldable pub detach_user_sessions : GoString → Server → List ℕ × Server
detach_user_sessions user_id s =
    let id = trim_space user_id in
    if is_empty id then ([], s) else detach_state id (lookup id s.user_states) s

unfoldable pub revoke_all : List ℕ → Server → Server
revoke_all [] s = s
revoke_all (p ∷ ps) s = revoke_all ps (revoke p s)

unfoldable pub invalidate_user_sessions : GoString → Server → Server
invalidate_user_sessions user_id s =
    let (ps, detached) = detach_user_sessions user_id s in revoke_all ps detached

-- CloseWithError on the connection of a session, if it has one.
abbrev pub close_conn : Option ℕ → Server → Server
close_conn none s = s
close_conn (some c) s = record s { closed = s.closed ++ c ∷ [] }

unfoldable pub close_all : List ℕ → Server → Server
close_all [] s = s
close_all (p ∷ ps) s = close_all ps (close_conn ((revoke p s).sessions p).conn (revoke p s))

unfoldable pub close_user_sessions : GoString → Server → Server
close_user_sessions user_id s =
    let (ps, detached) = detach_user_sessions user_id s in close_all ps detached
