-- ===== src/Service.antt =====
-- The services of server/auth as one state machine: the requests, the worker, and what happens
-- around them.
pub mod Invariant
mod Tests
use ppgram.Prelude.{ℕ, Bool, Option, List, GoString}
use ppgram.Database.{Time}
use ppgram.Backend.{Backend, Fault}
use ppgram.Password.{Crypto}
use ppgram.Auth.{AuthCredentials, register, login_by_credentials, login_by_token}
use ppgram.Deletion.{
  schedule_account_deletion, cancel_account_deletion, process_due_account_deletions,
}

module _ (crypto : Crypto) where
  -- One call of a service, or the environment: the clocks and the connections go on, the random
  -- numbers to come are others, and Redis may be emptied or written to by others.
  pub data Step (b : Backend) : Backend → Type 0 where
    registers : (creds : AuthCredentials) → Step b (register crypto creds b).1
    logs_in : (creds : AuthCredentials) → Step b (login_by_credentials crypto creds b).1
    logs_in_by_token : (token : GoString) → Step b (login_by_token crypto token b).1
    schedules :
        (username password : GoString)
        → Step b (schedule_account_deletion crypto username password b).1
    cancels :
        (username password : GoString)
        → Step b (cancel_account_deletion crypto username password b).1
    worker_runs : Step b (process_due_account_deletions crypto b).1
    time_passes :
        (now db_now : Time) (faults : List Fault) (entropy : ℕ → Option (ℕ → ℕ))
        → Step b (record b { now = now; db_now = db_now; faults = faults; entropy = entropy })
    redis_changes : (redis : List (GoString × GoString)) → Step b (record b { redis = redis })

  pub data Reachable (b : Backend) : Backend → Type 0 where
    start : Reachable b b
    next : {c d : Backend} → Reachable b c → Step c d → Reachable b d
