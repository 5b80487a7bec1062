-- ===== src/Session/Tests.antt =====
-- The registry of sessions at concrete states.
use ppgram.Prelude.{true, false, ◌==◌, [], ◌∷◌, some, codes, is_empty, ◌≡◌, refl, ◌=s=◌}
use ppgram.Prelude.Maps.{lookup}
use ppgram.Text.{trim_space, trim_func, trim_left, trim_right, is_space}
use ppgram.Table.{exists}
use ppgram.Session.{new_device_session, authenticate, is_authenticated, invalidate_user_sessions}
use ppgram.Session.Revocation.{
  AllSound, Invalidated, authenticate-AllSound, invalidate_user_sessions-Invalidated,
}
use ppgram.Session.Identity.{
  Authenticated, authenticate-Authenticated, invalidate_user_sessions-replaced,
}
use ppgram.Session.Samples.{one_device, with_session}

with_session-AllSound : AllSound with_session
unfolding new_device_session
with_session-AllSound p = record { woken = refl; nobody = λ h. refl }

user_given : is_empty (trim_space (codes " u0")) ≡ false
unfolding is_empty trim_space trim_func trim_left trim_right is_space
user_given = refl

device_given : is_empty (trim_space (codes "d1 ")) ≡ false
unfolding is_empty trim_space trim_func trim_left trim_right is_space
device_given = refl

found : lookup (trim_space (codes " u0")) with_session.user_states ≡ some one_device
unfolding lookup trim_space trim_func trim_left trim_right is_space ◌=s=◌
found = refl

not_there : exists (λ p. p == 3) (7 ∷ []) ≡ false
unfolding exists
not_there = refl

stays_sound : AllSound (authenticate (some 3) (codes " u0") (codes "d1 ") [] with_session)
stays_sound =
    authenticate-AllSound (some 3) (codes " u0") (codes "d1 ") [] with_session with_session-AllSound

authenticate-Authenticated_example :
    Authenticated 3
      (codes " u0")
      (codes "d1 ")
      one_device
      with_session
      (authenticate (some 3) (codes " u0") (codes "d1 ") [] with_session)
authenticate-Authenticated_example =
    authenticate-Authenticated 3 (codes " u0") (codes "d1 ") [] one_device with_session user_given
      device_given found

invalidate_user_sessions-Invalidated_example :
    Invalidated
      (codes " u0")
      one_device
      with_session
      (invalidate_user_sessions (codes " u0") with_session)
invalidate_user_sessions-Invalidated_example =
    invalidate_user_sessions-Invalidated (codes " u0") one_device with_session with_session-AllSound
      user_given found

invalidate_user_sessions-replaced_example :
    is_authenticated (some 3) (
      invalidate_user_sessions (codes " u0") (
        authenticate
          (some 4)
          (codes " u0")
          (codes "d1 ")
          []
          (authenticate (some 3) (codes " u0") (codes "d1 ") [] with_session)))
    ≡ true
invalidate_user_sessions-replaced_example =
    invalidate_user_sessions-replaced 3 4 (codes " u0") (codes "d1 ") [] [] one_device with_session
      with_session-AllSound user_given device_given found refl not_there
