-- ===== src/Defaults/Calls.antt =====
-- The pools and clients of a whole start, against a ledger of the calls.
use ppgram.Prelude.{
  ℕ, suc, Bool, true, false, not, ◌&&◌, ◌||◌, List, [], ◌∷◌, Option, none, some, GoString, is_empty,
  if◌then◌else◌, ◌≡◌, ◌⊎◌, subst, refl, ap, ◌∙◌, inl, inr,
}
use ppgram.Table.{exists}
use ppgram.Defaults.{
  StartCall, starts_db, starts_cache, Process, start_call, start_calls, Handles, no_handles,
  make_handle, close_handle, close_previous, replace_default, table_failed, database_url_required,
  pool_failed, redis_addr_required, StartError, Started, ok, err, DbAnswers, new_database,
  install_database, init_default_db, install_cache, init_default_cache,
}
use ppgram.Defaults.Open.{OpenAre, make_handle-leaked, make_handle-closed, close_previous-OpenAre}

-- What is expected of the pools: how many were made, which of them were left open, and which is the
-- default.
pub record Ledger : Type 0 where
  pub made : ℕ
  pub leaked : List ℕ
  pub default : Option ℕ

abbrev pub tables_made : DbAnswers → Bool
tables_made answers = answers.users && answers.user_tokens && answers.pending_account_deletions

-- A pool is made if there is a URL and the pool connects; it becomes the default if the tables can
-- be made, and is left open otherwise.
unfoldable pub note_db : GoString → DbAnswers → Ledger → Ledger
note_db database_url answers l =
    if is_empty database_url || not answers.connects
    then l
    else if tables_made answers
    then record l { made = suc l.made; default = some l.made }
    else record l { made = suc l.made; leaked = l.made ∷ l.leaked }

unfoldable pub note_call : StartCall → Ledger → Ledger
unfolding note_db
note_call (starts_db database_url answers) l = note_db database_url answers l
note_call (starts_cache redis_addr from_environment pings) l = l

unfoldable pub note_calls : List StartCall → Ledger → Ledger
unfolding note_call
note_calls [] l = l
note_calls (call ∷ calls) l = note_calls calls (note_call call l)

-- The pools are as the ledger says.
pub record Agree (l : Ledger) (h : Handles) : Type 0 where
  pub made : h.next ≡ l.made
  pub default : h.default ≡ l.default
  pub pools : OpenAre l.leaked h

-- The answer of `NewPPDatabase`, by whether the tables could be made.
abbrev Made : Bool → Started (Unit {0}) → Type 0
Made t r = ((t ≡ true) × (r ≡ ok tt)) ⊎ ((t ≡ false) × (e : StartError) × (r ≡ err e))

if_Made :
    (u t d : Bool)
    → Made (u && t && d) (
        if not u
        then err table_failed
        else if not t
        then err table_failed
        else if not d
        then err table_failed
        else ok tt)
if_Made false t d = inr (refl, table_failed, refl)
if_Made true false d = inr (refl, table_failed, refl)
if_Made true true false = inr (refl, table_failed, refl)
if_Made true true true = inl (refl, refl)

new_database-Made : (answers : DbAnswers) → Made (tables_made answers) (new_database answers)
unfolding new_database
new_database-Made answers =
    if_Made answers.users answers.user_tokens answers.pending_account_deletions

close_previous-next : (o : Option ℕ) (h : Handles) → (close_previous o h).next ≡ h.next
unfolding close_previous close_handle
close_previous-next none h = refl
close_previous-next (some id) h = refl

close_previous-default : (o : Option ℕ) (h : Handles) → (close_previous o h).default ≡ h.default
unfolding close_previous close_handle
close_previous-default none h = refl
close_previous-default (some id) h = refl

installed-Agree :
    (l : Ledger) (h : Handles)
    → Agree l h
    → Agree
        (record l { made = suc l.made; default = some l.made })
        (replace_default h.next (make_handle h))
unfolding replace_default make_handle
installed-Agree l h a =
    let new : Handles = record (make_handle h) { default = some h.next } in
    record {
      made = close_previous-next h.default new ∙ ap suc a.made;
      default = close_previous-default h.default new ∙ ap some a.made;
      pools = close_previous-OpenAre l.leaked h h.default a.pools refl;
    }

leaked-Agree :
    (l : Ledger) (h : Handles)
    → Agree l h
    → Agree (record l { made = suc l.made; leaked = l.made ∷ l.leaked }) (make_handle h)
leaked-Agree l h a = record {
  made = unfold make_handle in ap suc a.made;
  default = unfold make_handle in a.default;
  pools =
      subst (λ (n : ℕ). OpenAre (n ∷ l.leaked) (make_handle h)) a.made
        (make_handle-leaked l.leaked h a.pools);
}

install_database-Agree :
    (l : Ledger) (h : Handles) (answers : DbAnswers)
    → Agree l h
    → Agree
        (if tables_made answers
          then record l { made = suc l.made; default = some l.made }
          else record l { made = suc l.made; leaked = l.made ∷ l.leaked })
        (install_database (new_database answers) h.next (make_handle h)).1
unfolding install_database
install_database-Agree l h answers a = elim (new_database-Made answers) [
  | inl (made, result) ↦ rw (made, result) (installed-Agree l h a)
  | inr (failed, e, result) ↦ rw (failed, result) (leaked-Agree l h a)
]

if_Agree :
    (t u : Bool) (l l' : Ledger) (h : Handles) (e e' : StartError)
    (r : Started (Unit {0}) × Handles)
    → Agree l h
    → Agree l' r.1
    → Agree
        (if t || not u then l else l')
        (if t then (err e, h) else if not u then (err e', h) else r).1
if_Agree true u l l' h e e' r a b = a
if_Agree false false l l' h e e' r a b = a
if_Agree false true l l' h e e' r a b = b

init_default_db-Agree :
    (database_url : GoString) (answers : DbAnswers) (l : Ledger) (h : Handles)
    → Agree l h
    → Agree (note_db database_url answers l) (init_default_db database_url answers h).1
unfolding note_db init_default_db
init_default_db-Agree database_url answers l h a =
    if_Agree (is_empty database_url) answers.connects l _ h database_url_required pool_failed _ a
      (install_database-Agree l h answers a)

install_cache-OpenAre :
    (pings : Bool) (h : Handles)
    → OpenAre [] h
    → OpenAre [] (install_cache pings h.next (make_handle h)).1
unfolding install_cache replace_default make_handle
install_cache-OpenAre false h o = unfold make_handle in make_handle-closed [] h o
install_cache-OpenAre true h o = close_previous-OpenAre [] h h.default o refl

if_OpenAre :
    (t : Bool) (h : Handles) (e : StartError) (r : Started (Unit {0}) × Handles)
    → OpenAre [] h
    → OpenAre [] r.1
    → OpenAre [] (if t then (err e, h) else r).1
if_OpenAre true h e r a b = a
if_OpenAre false h e r a b = b

init_default_cache-OpenAre :
    (redis_addr from_environment : GoString) (pings : Bool) (h : Handles)
    → OpenAre [] h
    → OpenAre [] (init_default_cache redis_addr from_environment pings h).1
unfolding init_default_cache
init_default_cache-OpenAre redis_addr from_environment pings h o =
    if_OpenAre _ h redis_addr_required _ o (install_cache-OpenAre pings h o)

-- What holds of a process while it starts.
pub record StartedAs (l : Ledger) (p : Process) : Type 0 where
  pub db : Agree l p.pools
  pub cache : OpenAre [] p.clients

start_call-StartedAs :
    (call : StartCall) (l : Ledger) (p : Process)
    → StartedAs l p
    → StartedAs (note_call call l) (start_call call p)
unfolding note_call start_call
start_call-StartedAs (starts_db database_url answers) l p s = record {
  db = init_default_db-Agree database_url answers l p.pools s.db;
  cache = s.cache;
}
start_call-StartedAs (starts_cache redis_addr from_environment pings) l p s = record {
  db = s.db;
  cache = init_default_cache-OpenAre redis_addr from_environment pings p.clients s.cache;
}

start_calls_from-StartedAs :
    (calls : List StartCall) (l : Ledger) (p : Process)
    → StartedAs l p
    → StartedAs (note_calls calls l) (start_calls calls p)
unfolding note_calls start_calls
start_calls_from-StartedAs [] l p s = s
start_calls_from-StartedAs (call ∷ calls) l p s =
    start_calls_from-StartedAs calls (note_call call l) (start_call call p)
      (start_call-StartedAs call l p s)

no_handles-OpenAre : OpenAre [] no_handles
unfolding exists
no_handles-OpenAre = record { open_iff = λ id. refl; old = λ id h. cc h; kept = λ id h. refl }

abbrev pub empty_ledger : Ledger
empty_ledger = record { made = 0; leaked = []; default = none }

abbrev pub new_process : Process
new_process = record { pools = no_handles; clients = no_handles }

-- After any calls of InitDefaultDB and InitDefaultCache, whatever fails: of the clients just the
-- default one is open; of the pools just the default one, which is the last whose tables could be
-- made, and those that were connected while the tables could not be made.
pub start_calls-StartedAs :
    (calls : List StartCall)
    → StartedAs (note_calls calls empty_ledger) (start_calls calls new_process)
start_calls-StartedAs calls = start_calls_from-StartedAs calls empty_ledger new_process (record {
  db = record { made = refl; default = refl; pools = no_handles-OpenAre };
  cache = no_handles-OpenAre;
})
