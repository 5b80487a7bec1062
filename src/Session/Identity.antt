-- ===== src/Session/Identity.antt =====
-- `Authenticate` of server/core/session/session.go: who a session belongs to, and which session of a
-- device the registry knows.
use ppgram.Prelude.{
  ℕ, true, false, not, ◌&&◌, ◌==◌, [], ◌∷◌, map, some, GoString, is_empty, if◌then◌else◌, ◌≡◌, refl,
  ap, ◌∙◌, arith, Bool-cases, inl, inr, ◌=s=◌, str_eq_refl,
}
use ppgram.Prelude.Maps.{lookup, insert, lookup-insert}
use ppgram.Text.{trim_space}
use ppgram.Table.{exists}
use ppgram.Session.{
  DeviceSession, Devices, Server, identify, enter, authenticate_session, authenticate,
  is_authenticated, session_user_id, is_revoked, pointer, invalidate_user_sessions,
}
use ppgram.Session.Revocation.{
  AllSound, authenticate-AllSound, is_in, invalidate_user_sessions-Invalidated,
}

-- What a session and the registry are after an authentication of a user whose state is there.
pub record Authenticated (p : ℕ) (user_id device_id : GoString) (devices : Devices) (s s' : Server)
    : Type 0 where
  pub authenticated : is_authenticated (some p) s' ≡ true
  pub belongs : session_user_id (some p) s' ≡ trim_space user_id
  pub usable : is_revoked (some p) s' ≡ false
  pub registered :
      lookup (trim_space user_id) s'.user_states ≡ some (insert (trim_space device_id) p devices)
  pub others : (q : ℕ) → (q == p) ≡ false → s'.sessions q ≡ s.sessions q

-- If the trimmed ids of the user and the device are not empty and the user has a state, an
-- authenticated session belongs to the user, is not revoked and stands in the state under the
-- device, and no other session is changed.
pub authenticate-Authenticated :
    (p : ℕ) (user_id device_id device_name : GoString) (devices : Devices) (s : Server)
    → is_empty (trim_space user_id) ≡ false
    → is_empty (trim_space device_id) ≡ false
    → lookup (trim_space user_id) s.user_states ≡ some devices
    → Authenticated p user_id device_id devices s
        (authenticate (some p) user_id device_id device_name s)
unfolding authenticate authenticate_session enter is_authenticated session_user_id is_revoked
    identify
authenticate-Authenticated p user_id device_id device_name devices s user device found =
    let itself : (p == p) ≡ true = ground arith in
    let id = trim_space user_id in
    rw (user, device, found)
      (record {
        authenticated = rw (itself, user, device) refl;
        belongs = rw (session_user_id, itself) refl;
        usable = rw (is_revoked, itself) refl;
        registered =
            lookup-insert id id (insert (trim_space device_id) p devices) s.user_states
            ∙ ap
                (λ t.
                  if t
                  then some (insert (trim_space device_id) p devices)
                  else lookup id s.user_states)
                (str_eq_refl id);
        others = λ q other. rw other refl;
      })

insert-insert : (k : GoString) (p q : ℕ) (m : Devices) → insert k q (insert k p m) ≡ insert k q m
unfolding insert
insert-insert k p q [] = rw (str_eq_refl k) refl
insert-insert k p q ((j, w) ∷ m) = elim (Bool-cases (j =s= k)) [
  | inl here ↦ rw (here, str_eq_refl k) refl
  | inr other ↦ rw (other, other, insert-insert k p q m) refl
]

is_in-insert :
    (k : GoString) (p q : ℕ) (m : Devices)
    → (p == q) ≡ false
    → is_in p (map pointer m) ≡ false
    → is_in p (map pointer (insert k q m)) ≡ false
unfolding insert exists
is_in-insert k p q [] differs absent = ground arith
is_in-insert k p q ((j, w) ∷ m) differs absent = elim (Bool-cases (j =s= k)) [
  | inl here ↦ rw here (ground arith)
  | inr other ↦ rw other (ground (arith, is_in-insert k p q m))
]

-- If every session is sound, the trimmed ids are not empty and the user has a state in which a
-- session does not stand, that session, authenticated on a device and then replaced by another
-- one on the same device, is still authenticated after the user's sessions were invalidated.
pub invalidate_user_sessions-replaced :
    (p q : ℕ) (user_id device_id name other_name : GoString) (devices : Devices) (s : Server)
    → AllSound s
    → is_empty (trim_space user_id) ≡ false
    → is_empty (trim_space device_id) ≡ false
    → lookup (trim_space user_id) s.user_states ≡ some devices
    → (p == q) ≡ false
    → is_in p (map pointer devices) ≡ false
    → is_authenticated (some p) (
        invalidate_user_sessions user_id (
          authenticate
            (some q)
            user_id
            device_id
            other_name
            (authenticate (some p) user_id device_id name s)))
      ≡ true
unfolding is_authenticated
invalidate_user_sessions-replaced p q user_id device_id name other_name devices s sound user device
      found differs absent =
    let id = trim_space user_id in
    let did = trim_space device_id in
    let s1 = authenticate (some p) user_id device_id name s in
    let s2 = authenticate (some q) user_id device_id other_name s1 in
    let first = authenticate-Authenticated p user_id device_id name devices s user device found in
    let second =
      authenticate-Authenticated q user_id device_id other_name (insert did p devices) s1 user
        device first.registered in
    let sound2 =
      authenticate-AllSound (some q) user_id device_id other_name s1
        (authenticate-AllSound (some p) user_id device_id name s sound) in
    let after =
      invalidate_user_sessions-Invalidated user_id (insert did q (insert did p devices)) s2 sound2
        user second.registered in
    let forgotten : is_in p (map pointer (insert did q (insert did p devices))) ≡ false =
      ap (λ m. is_in p (map pointer m)) (insert-insert did p q devices)
      ∙ is_in-insert did p q devices differs absent in
    ap (λ (x : DeviceSession). not (is_empty x.user_id) && not (is_empty x.device_id))
      (after.kept_sessions p forgotten ∙ second.others p differs)
    ∙ first.authenticated
