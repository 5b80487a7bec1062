-- ===== src/Session/Revocation.antt =====
-- What `InvalidateUserSessions` and `Authenticate` of server/core/session/session.go do to the
-- sessions of a user.
use ppgram.Prelude.{
  ℕ, Bool, true, false, not, ◌&&◌, ◌||◌, ◌==◌, List, [], ◌∷◌, map, Option, none, some, GoString,
  is_empty, if◌then◌else◌, ◌≡◌, refl, ap, ◌∙◌, arith, Bool-cases, inl, inr, ◌=s=◌, str_eq_refl,
}
use ppgram.Prelude.Maps.{lookup, remove, lookup-remove}
use ppgram.Text.{trim_space}
use ppgram.Table.{exists}
use ppgram.Errors.{Result, ok, err}
use ppgram.Database.{User}
use ppgram.Backend.{Backend}
use ppgram.Repository.{get_user_by_id}
use ppgram.Session.{
  DeviceSession, Devices, Server, set_session, identify, enter_new, enter, authenticate_session,
  authenticate, is_authenticated, is_revoked, revoked_session, revoke, pointer, detach_state,
  detach_user_sessions, revoke_all, invalidate_user_sessions,
}

-- The readers of the channel have been woken just when the session is revoked, and a revoked session
-- belongs to nobody.
pub record IsSound (s : DeviceSession) : Type 0 where
  pub woken : s.channel_closed ≡ s.revoked
  pub nobody : s.revoked ≡ true → s.user_id ≡ []

abbrev pub AllSound : Server → Type 0
AllSound s = (p : ℕ) → IsSound (s.sessions p)

-- What holds of both branches.
pub if_cases {ℓ κ} :
    {A : Type ℓ} (P : A → Type κ) (t : Bool) (a b : A)
    → (t ≡ true → P a)
    → (t ≡ false → P b)
    → P (if t then a else b)
if_cases P true a b h k = h refl
if_cases P false a b h k = k refl

identify-IsSound :
    (user_id device_id device_name : GoString) (s : DeviceSession)
    → IsSound s
    → IsSound (identify user_id device_id device_name s)
unfolding identify
identify-IsSound user_id device_id device_name s h = elim (Bool-cases s.revoked) [
  | inl r ↦ record { woken = rw r refl; nobody = λ k. cc k }
  | inr r ↦ record { woken = rw r (h.woken ∙ r); nobody = λ k. cc k }
]

pub revoked_session-IsSound : (s : DeviceSession) → IsSound s → IsSound (revoked_session s)
unfolding revoked_session
revoked_session-IsSound s h =
    if_cases IsSound s.revoked s _ (λ r. h) (λ r. record { woken = refl; nobody = λ k. refl })

pub set_session-IsSound :
    (p : ℕ) (session : DeviceSession) (sessions : ℕ → DeviceSession)
    → IsSound session
    → ((q : ℕ) → IsSound (sessions q))
    → (q : ℕ) → IsSound (set_session p session sessions q)
set_session-IsSound p session sessions h k q = elim (Bool-cases (q == p)) [
  | inl here ↦ rw here h
  | inr other ↦ rw other (k q)
]

enter_new-sessions :
    (p : ℕ) (user_id device_id : GoString) (r : Result User × Backend) (s : Server)
    → (enter_new p user_id device_id r s).sessions ≡ s.sessions
unfolding enter_new
enter_new-sessions p user_id device_id (ok user, b) s = refl
enter_new-sessions p user_id device_id (err e, b) s = refl

enter-sessions :
    (p : ℕ) (user_id device_id : GoString) (o : Option Devices) (s : Server)
    → (enter p user_id device_id o s).sessions ≡ s.sessions
unfolding enter
enter-sessions p user_id device_id (some devices) s = refl
enter-sessions p user_id device_id none s =
    if_cases (λ (x : Server). x.sessions ≡ s.sessions) s.backend.db_ready
      (enter_new p user_id device_id (get_user_by_id user_id s.backend) s) s
      (λ r. enter_new-sessions p user_id device_id (get_user_by_id user_id s.backend) s) (λ r. refl)

authenticate_session-AllSound :
    (p : ℕ) (user_id device_id device_name : GoString) (s : Server)
    → AllSound s
    → AllSound (authenticate_session p user_id device_id device_name s)
unfolding authenticate_session
authenticate_session-AllSound p user_id device_id device_name s h =
    elim (Bool-cases (is_empty user_id || is_empty device_id)) [
      | inl missing ↦ rw missing h
      | inr given ↦
          rw (given, enter-sessions p user_id device_id (lookup user_id s.user_states) _)
            (set_session-IsSound p _ s.sessions
              (identify-IsSound user_id device_id device_name (s.sessions p) (h p)) h)
    ]

-- Authenticating a session keeps every session sound: the readers of its channel have been woken
-- just when it is revoked, and a revoked session belongs to nobody.
pub authenticate-AllSound :
    (p : Option ℕ) (user_id device_id device_name : GoString) (s : Server)
    → AllSound s
    → AllSound (authenticate p user_id device_id device_name s)
unfolding authenticate
authenticate-AllSound none user_id device_id device_name s h = h
authenticate-AllSound (some p) user_id device_id device_name s h =
    authenticate_session-AllSound p (trim_space user_id) (trim_space device_id)
      (trim_space device_name) s h

-- Revoking a list of sessions revokes each of them once, and no other.
abbrev revoked_blank : DeviceSession → DeviceSession
revoked_blank s = record {
  user_id = [];
  device_id = [];
  device_name = [];
  conn = s.conn;
  revoked = true;
  channel_closed = true;
}

revoked_session_idem : (s : DeviceSession) → revoked_session (revoked_session s) ≡ revoked_session s
unfolding revoked_session
revoked_session_idem s =
    if_cases (λ x. revoked_session x ≡ x) s.revoked s _
      (λ r. ap (λ t. if t then s else revoked_blank s) r) (λ r. refl)

abbrev pub is_in : ℕ → List ℕ → Bool
is_in q ps = exists (λ p. p == q) ps

either : {A : Type 0} (t : Bool) (a : A) → (if t then a else a) ≡ a
either true a = refl
either false a = refl

revoke_all-sessions :
    (ps : List ℕ) (s : Server) (q : ℕ)
    → (revoke_all ps s).sessions q
      ≡ (if is_in q ps then revoked_session (s.sessions q) else s.sessions q)
unfolding revoke_all revoke exists
revoke_all-sessions [] s q = refl
revoke_all-sessions (p ∷ ps) s q = elim (Bool-cases (q == p)) [
  | inl here ↦
      let same : q ≡ p = ground arith in
      let first : (p == q) ≡ true = ground arith in
      rw (revoke_all-sessions ps (revoke p s) q) (
        unfold revoke in
        rw (here, first, ← same, revoked_session_idem (s.sessions q))
          (either (is_in q ps) (revoked_session (s.sessions q))))
  | inr other ↦
      let not_first : (p == q) ≡ false = ground arith in
      rw (revoke_all-sessions ps (revoke p s) q) (unfold revoke in rw (other, not_first) refl)
]

revoke_all-user_states : (ps : List ℕ) (s : Server) → (revoke_all ps s).user_states ≡ s.user_states
unfolding revoke_all revoke
revoke_all-user_states [] s = refl
revoke_all-user_states (p ∷ ps) s = revoke_all-user_states ps (revoke p s)

revoked_session-revoked :
    (s : DeviceSession)
    → IsSound s
    → ((revoked_session s).revoked ≡ true) × ((revoked_session s).user_id ≡ [])
unfolding revoked_session
revoked_session-revoked s h =
    if_cases (λ (x : DeviceSession). (x.revoked ≡ true) × (x.user_id ≡ [])) s.revoked s _
      (λ r. (r, h.nobody r)) (λ r. (refl, refl))

-- The registry and the sessions after the sessions of a user were invalidated.
pub record Invalidated (user_id : GoString) (devices : Devices) (s s' : Server) : Type 0 where
  pub gone : lookup (trim_space user_id) s'.user_states ≡ none
  pub kept_states :
      (other : GoString)
      → (trim_space user_id =s= other) ≡ false
      → lookup other s'.user_states ≡ lookup other s.user_states
  pub revoked :
      (p : ℕ)
      → is_in p (map pointer devices) ≡ true
      → (is_revoked (some p) s' ≡ true) × (is_authenticated (some p) s' ≡ false)
  pub kept_sessions : (p : ℕ) → is_in p (map pointer devices) ≡ false → s'.sessions p ≡ s.sessions p

revoked-Invalidated :
    (user_id : GoString) (devices : Devices) (s : Server)
    → AllSound s
    → Invalidated user_id devices s (
        revoke_all
          (map pointer devices)
          (record s { user_states = remove (trim_space user_id) s.user_states }))
unfolding is_revoked is_authenticated is_empty
revoked-Invalidated user_id devices s sound =
    let id = trim_space user_id in
    let ps = map pointer devices in
    let detached = record s { user_states = remove id s.user_states } in
    let states = revoke_all-user_states ps detached in
    record {
      gone =
          ap (lookup id) states
          ∙ lookup-remove id id s.user_states
          ∙ ap (λ t. if t then none else lookup id s.user_states) (str_eq_refl id);
      kept_states = λ other differs.
          ap (lookup other) states
          ∙ lookup-remove id other s.user_states
          ∙ ap (λ t. if t then none else lookup other s.user_states) differs;
      revoked = λ p there.
          let after : (revoke_all ps detached).sessions p ≡ revoked_session (s.sessions p) =
            revoke_all-sessions ps detached p
            ∙ ap (λ t. if t then revoked_session (s.sessions p) else s.sessions p) there in
          let (r, nobody) = revoked_session-revoked (s.sessions p) (sound p) in
          (
            ap (λ (x : DeviceSession). x.revoked) after ∙ r,
            ap (λ (x : DeviceSession). not (is_empty x.user_id) && not (is_empty x.device_id)) after
                ∙ ap
                    (λ u.
                      not (is_empty u) && not (is_empty (revoked_session (s.sessions p)).device_id))
                    nobody,
          );
      kept_sessions = λ p absent.
          revoke_all-sessions ps detached p
          ∙ ap (λ t. if t then revoked_session (s.sessions p) else s.sessions p) absent;
    }

-- If every session is sound and the trimmed user id is not empty and has a state, invalidating
-- the user's sessions removes that state and no other, leaves every session in it revoked and not
-- authenticated, and changes no other session.
pub invalidate_user_sessions-Invalidated :
    (user_id : GoString) (devices : Devices) (s : Server)
    → AllSound s
    → is_empty (trim_space user_id) ≡ false
    → lookup (trim_space user_id) s.user_states ≡ some devices
    → Invalidated user_id devices s (invalidate_user_sessions user_id s)
unfolding invalidate_user_sessions detach_user_sessions detach_state
invalidate_user_sessions-Invalidated user_id devices s sound given found =
    rw (given, found) (revoked-Invalidated user_id devices s sound)
