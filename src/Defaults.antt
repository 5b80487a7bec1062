-- ===== src/Defaults.antt =====
-- The start of database/database.go and cache/cache.go: the pool of connections and the client that
-- the process works with, and what is open when one takes the place of another.
pub mod Open
pub mod Calls
mod Tests
use ppgram.Prelude.{
  ℕ, suc, Bool, true, false, not, ◌&&◌, ◌||◌, ◌==◌, List, [], ◌∷◌, Option, none, some, GoString,
  is_empty, if◌then◌else◌,
}

pub data StartError : Type 0 where
  database_url_required pool_failed table_failed default_db_not_initialized : StartError
  redis_addr_required ping_failed default_redis_not_initialized : StartError

pub data Started {ℓ} (A : Type ℓ) : Type ℓ where
  ok : A → Started A
  err : StartError → Started A

-- The pools that were made, or the clients, by their numbers; which of them are open; and
-- `defaultDB`, or `defaultCache`.
pub record Handles : Type 0 where
  pub next : ℕ
  pub is_open : ℕ → Bool
  pub default : Option ℕ

abbrev pub no_handles : Handles
no_handles = record { next = 0; is_open = λ id. false; default = none }

abbrev pub set_open : ℕ → Bool → (ℕ → Bool) → ℕ → Bool
set_open id value is_open other = if id == other then value else is_open other

-- `pgxpool.New` and `redis.NewClient`
unfoldable pub make_handle : Handles → Handles
make_handle h = record h { next = suc h.next; is_open = set_open h.next true h.is_open }

-- `Close` of a pool or a client
unfoldable pub close_handle : ℕ → Handles → Handles
close_handle id h = record h { is_open = set_open id false h.is_open }

-- `if prev != nil { prev.Close() }`
unfoldable pub close_previous : Option ℕ → Handles → Handles
unfolding close_handle
close_previous none h = h
close_previous (some id) h = close_handle id h

-- The new one takes the place of the one before, which is closed.
unfoldable pub replace_default : ℕ → Handles → Handles
unfolding close_previous
replace_default id h = close_previous h.default (record h { default = some id })

-- What the database answers while the process starts.
pub record DbAnswers : Type 0 where
  pub connects : Bool
  pub users : Bool
  pub user_tokens : Bool
  pub pending_account_deletions : Bool

-- `NewPPDatabase`: each repository makes its table.
unfoldable pub new_database : DbAnswers → Started (Unit {0})
new_database answers =
    if not answers.users
    then err table_failed
    else if not answers.user_tokens
    then err table_failed
    else if not answers.pending_account_deletions
    then err table_failed
    else ok tt

-- `InitDefaultDB` after the pool was made.
unfoldable pub install_database : Started (Unit {0}) → ℕ → Handles → Started (Unit {0}) × Handles
unfolding replace_default
install_database (err e) id h = (err e, h)
install_database (ok u) id h = (ok u, replace_default id h)

unfoldable pub init_default_db : GoString → DbAnswers → Handles → Started (Unit {0}) × Handles
unfolding new_database install_database make_handle
init_default_db database_url answers h =
    if is_empty database_url
    then (err database_url_required, h)
    else if not answers.connects
    then (err pool_failed, h)
    else install_database (new_database answers) h.next (make_handle h)

unfoldable pub default_db : Handles → Started ℕ
default_db h = elim h.default [ none ↦ err default_db_not_initialized | some id ↦ ok id ]

unfoldable pub install_cache : Bool → ℕ → Handles → Started (Unit {0}) × Handles
unfolding replace_default close_handle
install_cache false id h = (err ping_failed, close_handle id h)
install_cache true id h = (ok tt, replace_default id h)

-- `InitDefaultCache`, given the variable REDIS_ADDR of the environment and whether the ping works.
unfoldable pub init_default_cache :
    GoString → GoString → Bool → Handles → Started (Unit {0}) × Handles
unfolding install_cache make_handle
init_default_cache redis_addr from_environment pings h =
    let addr = if is_empty redis_addr then from_environment else redis_addr in
    if is_empty addr
    then (err redis_addr_required, h)
    else install_cache pings h.next (make_handle h)

unfoldable pub default_cache : Handles → Started ℕ
default_cache h = elim h.default [ none ↦ err default_redis_not_initialized | some id ↦ ok id ]

-- A start of the one or of the other.
pub data StartCall : Type 0 where
  starts_db : (database_url : GoString) (answers : DbAnswers) → StartCall
  starts_cache : (redis_addr from_environment : GoString) (pings : Bool) → StartCall

pub record Process : Type 0 where
  pub pools : Handles
  pub clients : Handles

unfoldable pub start_call : StartCall → Process → Process
unfolding init_default_db init_default_cache
start_call (starts_db database_url answers) p = record p {
  pools = (init_default_db database_url answers p.pools).1;
}
start_call (starts_cache redis_addr from_environment pings) p = record p {
  clients = (init_default_cache redis_addr from_environment pings p.clients).1;
}

unfoldable pub start_calls : List StartCall → Process → Process
unfolding start_call
start_calls [] p = p
start_calls (call ∷ calls) p = start_calls calls (start_call call p)
