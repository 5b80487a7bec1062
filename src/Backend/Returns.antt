-- ===== src/Backend/Returns.antt =====
-- What a successful run of a chain of steps says of each step.
use ppgram.Prelude.{Bool, true, false, ◌≡◌, refl, ap, ◌⊎◌, inl, inr, List, [], ◌∷◌}
use ppgram.Errors.{Error, Result, ok, err}
use ppgram.Database.{Statement, Outcome, done, unique_violation, failed}
use ppgram.Backend.{
  Backend, Fault, fine, lost_request, lost_reply, Exec, pure, continue, ◌>>=◌, handle, handle_with,
  refuse_if, run_with, run_statement, outcome_result, query,
}

-- `m` returns `a` and leaves `b'` behind.
abbrev pub Returns {ℓ} : {A : Type ℓ} → Exec A → Backend → A → Backend → Type ℓ
Returns m b a b' = m b ≡ (ok a, b')

module _ {ℓ κ} {A : Type ℓ} {B : Type κ} where
  continue-eq-ok :
      (r : Result A × Backend) (f : A → Exec B) {c : B} {b' : Backend}
      → continue r f ≡ (ok c, b')
      → (a : A) × (r ≡ (ok a, r.1)) × (f a r.1 ≡ (ok c, b'))
  unfolding continue
  continue-eq-ok (ok a, b) f h = (a, refl, h)
  continue-eq-ok (err e, b) f h = cc

  pub >>=-Returns :
      (m : Exec A) (f : A → Exec B) {b b' : Backend} {c : B}
      → Returns (m >>= f) b c b'
      → (a : A) × Returns m b a (m b).1 × Returns (f a) (m b).1 c b'
  unfolding ◌>>=◌
  >>=-Returns m f {b} h = continue-eq-ok (m b) f h

  handle_with-eq-ok :
      (r : Result A × Backend) (on_error : Error → Exec B) (f : A → Exec B) {c : B} {b' : Backend}
      → handle_with r on_error f ≡ (ok c, b')
      → ((a : A) × (r ≡ (ok a, r.1)) × (f a r.1 ≡ (ok c, b')))
        ⊎ ((e : Error) × (r ≡ (err e, r.1)) × (on_error e r.1 ≡ (ok c, b')))
  unfolding handle_with
  handle_with-eq-ok (ok a, b) on_error f h = inl (a, refl, h)
  handle_with-eq-ok (err e, b) on_error f h = inr (e, refl, h)

  pub handle-Returns :
      (m : Exec A) (on_error : Error → Exec B) (f : A → Exec B) {b b' : Backend} {c : B}
      → Returns (handle m on_error f) b c b'
      → ((a : A) × Returns m b a (m b).1 × Returns (f a) (m b).1 c b')
        ⊎ ((e : Error) × (m b ≡ (err e, (m b).1)) × Returns (on_error e) (m b).1 c b')
  unfolding handle
  handle-Returns m on_error f {b} h = handle_with-eq-ok (m b) on_error f h

  -- The same steps, one after the other.
  pub >>=-step :
      (m : Exec A) (f : A → Exec B) {b b' : Backend} {a : A}
      → Returns m b a b'
      → (m >>= f) b ≡ f a b'
  unfolding ◌>>=◌ continue
  >>=-step m f h = rw h

  pub >>=-stop :
      (m : Exec A) (f : A → Exec B) {b b' : Backend} {e : Error}
      → m b ≡ (err e, b')
      → (m >>= f) b ≡ (err e, b')
  unfolding ◌>>=◌ continue
  >>=-stop m f h = rw h

  pub handle-step :
      (m : Exec A) (on_error : Error → Exec B) (f : A → Exec B) {b b' : Backend} {a : A}
      → Returns m b a b'
      → handle m on_error f b ≡ f a b'
  unfolding handle handle_with
  handle-step m on_error f h = rw h

  pub handle-stop :
      (m : Exec A) (on_error : Error → Exec B) (f : A → Exec B) {b b' : Backend} {e : Error}
      → m b ≡ (err e, b')
      → handle m on_error f b ≡ on_error e b'
  unfolding handle handle_with
  handle-stop m on_error f h = rw h

pub pure-Returns {ℓ} :
    {A : Type ℓ} {a c : A} {b b' : Backend} → Returns (pure a) b c b' → (a ≡ c) × (b ≡ b')
unfolding pure
pure-Returns h = (cc (ap (λ r. r.0) h), ap (λ r. r.1) h)

-- A test that was passed.
pub refuse_if-Returns :
    (t : Bool) (e : Error) {b b' : Backend} {u : Unit {0}}
    → Returns (refuse_if t e) b u b'
    → (t ≡ false) × (b ≡ b')
unfolding refuse_if
refuse_if-Returns true e h = cc (ap (λ r. r.0) h)
refuse_if-Returns false e h = (refl, ap (λ r. r.1) h)

outcome-done {ℓ} :
    {A : Type ℓ} (on_unique : Error) (o : Outcome A) {a : A}
    → outcome_result on_unique o ≡ ok a
    → o ≡ done a
unfolding outcome_result
outcome-done on_unique (done a) h = cc
outcome-done on_unique unique_violation h = cc
outcome-done on_unique failed h = cc

-- A statement that was answered has run, and nothing but the database and the connection's future
-- has changed.
run_with-Returns {ℓ} :
    {A : Type ℓ} (faults : List Fault) (on_unique : Error) (f : Statement A) (b : Backend)
    {b' : Backend} {a : A}
    → outcome_result on_unique (run_with faults f b).0 ≡ ok a
    → (run_with faults f b).1 ≡ b'
    → ((f b.db_now b.db).0 ≡ done a)
      × (b' ≡ record b { db = (f b.db_now b.db).1; faults = b'.faults })
unfolding run_with
run_with-Returns [] on_unique f b h e = (outcome-done on_unique (f b.db_now b.db).0 h, rw (← e))
run_with-Returns (fine ∷ rest) on_unique f b h e =
    (outcome-done on_unique (f b.db_now b.db).0 h, rw (← e))
run_with-Returns (lost_request ∷ rest) on_unique f b h e = unfold outcome_result in cc h
run_with-Returns (lost_reply ∷ rest) on_unique f b h e = unfold outcome_result in cc h

pub query-Returns {ℓ} :
    {A : Type ℓ} (on_unique : Error) (f : Statement A) (b : Backend) {b' : Backend} {a : A}
    → Returns (query on_unique f) b a b'
    → ((f b.db_now b.db).0 ≡ done a)
      × (b' ≡ record b { db = (f b.db_now b.db).1; faults = b'.faults })
unfolding query
query-Returns on_unique f b h =
    unfold run_statement in
    run_with-Returns b.faults on_unique f b (ap (λ r. r.0) h) (ap (λ r. r.1) h)
