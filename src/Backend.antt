-- ===== src/Backend.antt =====
-- What the services run against: the database with its clock and its connection, Redis, the clock of
-- the server and its random numbers. A method that returns an error has still changed what it has
-- changed, so the state comes back beside the result.
pub mod Returns
pub mod Within
pub mod Keeps
use ppgram.Prelude.{
  ℕ, zero, suc, ◌+◌, ◌%◌, Bool, true, false, List, [], ◌∷◌, Option, none, some, GoString,
}
use ppgram.Errors.{Error, Result, ok, err, db_failure, random_failure}
use ppgram.Database.{Time, Database, Outcome, done, unique_violation, failed, Statement}

-- How the connection treats one request: it works, or the request is lost, or the reply is, after
-- the server has run the request.
pub data Fault : Type 0 where
  fine lost_request lost_reply : Fault

pub record Backend : Type 0 where
  -- whether InitDefaultDB and InitDefaultCache have succeeded
  pub db_ready : Bool
  pub redis_ready : Bool
  pub db : Database
  pub redis : List (GoString × GoString)
  -- time.Now(), and now() in a statement
  pub now : Time
  pub db_now : Time
  -- what is to come: of the connections, and of rand.Read, which may report an error
  pub faults : List Fault
  pub entropy : ℕ → Option (ℕ → ℕ)
  pub draws : ℕ

abbrev pub Exec {ℓ} : Type ℓ → Type ℓ
Exec A = Backend → Result A × Backend

module _ {ℓ} {A : Type ℓ} where
  unfoldable pub pure : A → Exec A
  pure a b = (ok a, b)

  unfoldable pub raise : Error → Exec A
  raise e b = (err e, b)

module _ {ℓ κ} {A : Type ℓ} {B : Type κ} where
  -- if err != nil { return nil, err }
  unfoldable pub continue : Result A × Backend → (A → Exec B) → Result B × Backend
  continue (ok a, b) f = f a b
  continue (err e, b) f = (err e, b)

  infixl 5 ◌>>=◌ ◌>>◌
  unfoldable pub ◌>>=◌ : Exec A → (A → Exec B) → Exec B
  unfolding continue
  ◌>>=◌ m f b = continue (m b) f

  abbrev pub ◌>>◌ : Exec A → Exec B → Exec B
  m >> n = m >>= λ _. n

  -- if err != nil { … }, where the caller handles the error itself
  unfoldable pub handle_with :
      Result A × Backend → (Error → Exec B) → (A → Exec B) → Result B × Backend
  handle_with (ok a, b) on_error f = f a b
  handle_with (err e, b) on_error f = on_error e b

  unfoldable pub handle : Exec A → (Error → Exec B) → (A → Exec B) → Exec B
  unfolding handle_with
  handle m on_error f b = handle_with (m b) on_error f

-- `if condition { return nil, err }`
unfoldable pub refuse_if : Bool → Error → Exec (Unit {0})
refuse_if true e b = (err e, b)
refuse_if false e b = (ok tt, b)

module _ {ℓ} {A : Type ℓ} where
  -- A statement on the pool of connections.
  unfoldable pub run_with : List Fault → Statement A → Backend → Outcome A × Backend
  run_with [] f b = let (o, db) = f b.db_now b.db in (o, record b { db = db })
  run_with (fine ∷ rest) f b =
      let (o, db) = f b.db_now b.db in (o, record b { db = db; faults = rest })
  run_with (lost_request ∷ rest) f b = (failed, record b { faults = rest })
  run_with (lost_reply ∷ rest) f b =
      let (o, db) = f b.db_now b.db in (failed, record b { db = db; faults = rest })

  unfoldable pub run_statement : Statement A → Backend → Outcome A × Backend
  unfolding run_with
  run_statement f b = run_with b.faults f b

  -- The error that a failed statement becomes, with `on_unique` for a unique violation.
  unfoldable pub outcome_result : Error → Outcome A → Result A
  outcome_result on_unique (done a) = ok a
  outcome_result on_unique unique_violation = err on_unique
  outcome_result on_unique failed = err db_failure

  unfoldable pub query : Error → Statement A → Exec A
  unfolding run_statement outcome_result
  query on_unique f b = let (o, b') = run_statement f b in (outcome_result on_unique o, b')

-- A buffer of `n` random bytes.
unfoldable pub fill : ℕ → (ℕ → ℕ) → List ℕ
fill zero source = []
fill (suc n) source = source n % 256 ∷ fill n source

unfoldable pub random_result : ℕ → Option (ℕ → ℕ) → Result (List ℕ)
unfolding fill
random_result n none = err random_failure
random_result n (some source) = ok (fill n source)

-- rand.Read into a buffer of `n` bytes
unfoldable pub read_random : ℕ → Exec (List ℕ)
unfolding random_result
read_random n b = (random_result n (b.entropy b.draws), record b { draws = b.draws + 1 })

unfoldable pub time_now : Exec Time
time_now b = (ok b.now, b)
