-- ===== src/Session/Samples.antt =====
-- A registry of sessions for the tests.
use ppgram.Prelude.{[], ◌∷◌, some, codes}
use ppgram.Auth.Samples.{with_anna}
use ppgram.Session.{Devices, Server, new_device_session}

abbrev pub one_device : Devices
one_device = (codes "d1", 7) ∷ []

-- A user with one session, and others that are new.
abbrev pub with_session : Server
with_session = record {
  user_states = (codes "u0", one_device) ∷ [];
  sessions = λ p. new_device_session (some p);
  closed = [];
  backend = with_anna;
}
