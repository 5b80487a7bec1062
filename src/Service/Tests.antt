-- ===== src/Service/Tests.antt =====
-- The invariant at a concrete state: registrations, a run of the worker and a login.
use ppgram.Backend.{Backend}
use ppgram.Auth.{register, login_by_credentials}
use ppgram.Deletion.{process_due_account_deletions}
use ppgram.Database.Invariant.{IsConsistent}
use ppgram.Service.{Reachable, start, next, registers, logs_in, worker_runs}
use ppgram.Service.Invariant.{Reachable-IsConsistent}
use ppgram.Auth.Samples.{sample_crypto, anna, fresh, no_rows}

no_rows-IsConsistent : IsConsistent no_rows
no_rows-IsConsistent = record {
  user_ids = tt;
  usernames = tt;
  valid_names = tt;
  token_ids = tt;
  token_ids_used = tt;
  token_hashes = tt;
  token_devices = tt;
  token_users = tt;
  never_expires = tt;
  deletion_ids = tt;
  deletion_users = tt;
}

abbrev after_login : Backend
after_login =
    (login_by_credentials sample_crypto anna
      (process_due_account_deletions sample_crypto (register sample_crypto anna fresh).1).1).1

reached : Reachable sample_crypto fresh after_login
reached = next (next (next start (registers anna)) worker_runs) (logs_in anna)

Reachable-IsConsistent_example : IsConsistent after_login.db
Reachable-IsConsistent_example = Reachable-IsConsistent sample_crypto reached no_rows-IsConsistent
