-- ===== src/Backend/Keeps.antt =====
-- Actions that keep the tables consistent, one rule for each way to build an action.
use ppgram.Prelude.{Bool, true, false, List, [], ◌∷◌, if◌then◌else◌, ◌≡◌, refl, ℕ}
use ppgram.Errors.{Error, Result, ok, err}
use ppgram.Database.{Statement}
use ppgram.Database.Invariant.{IsConsistent}
use ppgram.Backend.{
  Backend, Fault, fine, lost_request, lost_reply, Exec, pure, raise, continue, ◌>>=◌, ◌>>◌, handle,
  handle_with, refuse_if, run_with, run_statement, query, read_random, time_now,
}

-- Whether it returns or fails, and whatever the connections do.
pub record Keeps {ℓ} {A : Type ℓ} (m : Exec A) : Type ℓ where
  pub at : (b : Backend) → IsConsistent b.db → IsConsistent (m b).1.db

module _ {ℓ} {A : Type ℓ} where
  pub Keeps-pure : (a : A) → Keeps (pure a)
  unfolding pure
  Keeps-pure a = record { at = λ b h. h }

  pub Keeps-raise : (e : Error) → Keeps (raise {A = A} e)
  unfolding raise
  Keeps-raise e = record { at = λ b h. h }

  run_with-Keeps :
      (faults : List Fault) (f : Statement A) (b : Backend)
      → IsConsistent b.db
      → IsConsistent (f b.db_now b.db).1
      → IsConsistent (run_with faults f b).1.db
  unfolding run_with
  run_with-Keeps [] f b h k = k
  run_with-Keeps (fine ∷ rest) f b h k = k
  run_with-Keeps (lost_request ∷ rest) f b h k = h
  run_with-Keeps (lost_reply ∷ rest) f b h k = k

  pub Keeps-query :
      (e : Error) (f : Statement A)
      → ((now : _) (db : _) → IsConsistent db → IsConsistent (f now db).1)
      → Keeps (query e f)
  unfolding query run_statement
  Keeps-query e f keeps = record {
    at = λ b h. run_with-Keeps b.faults f b h (keeps b.db_now b.db h);
  }

  pub Keeps-if :
      (t : Bool) (m n : Exec A)
      → (t ≡ true → Keeps m)
      → (t ≡ false → Keeps n)
      → Keeps (if t then m else n)
  Keeps-if true m n km kn = km refl
  Keeps-if false m n km kn = kn refl

pub Keeps-refuse_if : (t : Bool) (e : Error) → Keeps (refuse_if t e)
unfolding refuse_if
Keeps-refuse_if true e = record { at = λ b h. h }
Keeps-refuse_if false e = record { at = λ b h. h }

pub Keeps-read_random : (n : ℕ) → Keeps (read_random n)
unfolding read_random
Keeps-read_random n = record { at = λ b h. h }

pub Keeps-time_now : Keeps time_now
unfolding time_now
Keeps-time_now = record { at = λ b h. h }

module _ {ℓ κ} {A : Type ℓ} {B : Type κ} where
  continue-Keeps :
      (r : Result A × Backend) (f : A → Exec B)
      → IsConsistent r.1.db
      → ((a : A) → Keeps (f a))
      → IsConsistent (continue r f).1.db
  unfolding continue
  continue-Keeps (ok a, b) f h k = (k a).at b h
  continue-Keeps (err e, b) f h k = h

  pub Keeps-bind :
      (m : Exec A) (f : A → Exec B) → Keeps m → ((a : A) → Keeps (f a)) → Keeps (m >>= f)
  unfolding ◌>>=◌
  Keeps-bind m f km kf = record { at = λ b h. continue-Keeps (m b) f (km.at b h) kf }

  handle_with-Keeps :
      (r : Result A × Backend) (on_error : Error → Exec B) (f : A → Exec B)
      → IsConsistent r.1.db
      → ((e : Error) → Keeps (on_error e))
      → ((a : A) → Keeps (f a))
      → IsConsistent (handle_with r on_error f).1.db
  unfolding handle_with
  handle_with-Keeps (ok a, b) on_error f h ke kf = (kf a).at b h
  handle_with-Keeps (err e, b) on_error f h ke kf = (ke e).at b h

  pub Keeps-handle :
      (m : Exec A) (on_error : Error → Exec B) (f : A → Exec B)
      → Keeps m
      → ((e : Error) → Keeps (on_error e))
      → ((a : A) → Keeps (f a))
      → Keeps (handle m on_error f)
  unfolding handle
  Keeps-handle m on_error f km ke kf = record {
    at = λ b h. handle_with-Keeps (m b) on_error f (km.at b h) ke kf;
  }

-- What comes behind a check may use that it was passed.
pub Keeps-guard {ℓ} :
    {A : Type ℓ} (t : Bool) (e : Error) (m : Exec A)
    → (t ≡ false → Keeps m)
    → Keeps (refuse_if t e >> m)
unfolding ◌>>=◌ refuse_if continue
Keeps-guard true e m k = record { at = λ b h. h }
Keeps-guard false e m k = record { at = (k refl).at }

pub ruleset keeps_rules = (
  Keeps-pure, Keeps-raise, Keeps-query, Keeps-if, Keeps-refuse_if, Keeps-read_random,
  Keeps-time_now, Keeps-bind, Keeps-handle,
)
