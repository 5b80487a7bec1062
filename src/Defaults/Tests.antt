-- ===== src/Defaults/Tests.antt =====
-- A start of the database that fails, and one that works.
use ppgram.Prelude.{true, false, List, [], ◌∷◌, codes, is_empty, ◌≡◌, refl}
use ppgram.Defaults.{
  DbAnswers, StartCall, starts_db, starts_cache, start_calls, start_call, init_default_db,
  new_database, install_database, replace_default, close_previous, close_handle, make_handle,
}
use ppgram.Defaults.Calls.{StartedAs, note_calls, empty_ledger, new_process, start_calls-StartedAs}

abbrev working : DbAnswers
working = record {
  connects = true;
  users = true;
  user_tokens = true;
  pending_account_deletions = true;
}

abbrev calls : List StartCall
calls =
    starts_db (codes "postgres://a") (record working { user_tokens = false })
    ∷ starts_db (codes "postgres://a") working
    ∷ starts_cache [] (codes "cache:1") true
    ∷ starts_db (codes "postgres://b") working
    ∷ []

-- The pool 0 was left open, the pool 1 was closed when the pool 2 took its place.
left_open : (start_calls calls new_process).pools.is_open 0 ≡ true
unfolding start_calls start_call init_default_db new_database install_database replace_default
    close_previous close_handle make_handle is_empty
left_open = refl

closed : (start_calls calls new_process).pools.is_open 1 ≡ false
unfolding start_calls start_call init_default_db new_database install_database replace_default
    close_previous close_handle make_handle is_empty
closed = refl

start_calls-StartedAs_example :
    StartedAs (note_calls calls empty_ledger) (start_calls calls new_process)
start_calls-StartedAs_example = start_calls-StartedAs calls
