-- ===== src/Context/Chain.antt =====
-- `Next` of server/router/context_base.go: the middleware of a request, one around the other.
pub mod Termination
pub mod Nesting
pub mod Preserves
mod Tests
use ppgram.Prelude.{ℕ, zero, suc, List, [], ◌∷◌, Option, none, some, length}
use ppgram.Context.{ContextError}

module _ {ℓ} {A : Type ℓ} where
  -- `xs[n]`, or none where the index is too large
  unfoldable pub nth : ℕ → List A → Option A
  nth n [] = none
  nth zero (x ∷ xs) = some x
  nth (suc n) (x ∷ xs) = nth n xs

module _ (S : Type 0) where
  -- The body of a middleware, by what it does with the state of the request and of the server: it
  -- may look at it, change it, call `Next` as often as it likes, and goes on with what `Next`
  -- returned.
  pub data Script : Type 0 where
    returns : Option ContextError → Script
    reads : (S → Script) → Script
    writes : S → Script → Script
    calls_next : (Option ContextError → Script) → Script

  -- The error that is returned, how often `Next` was called, and the state; none is no behaviour of
  -- the code, it stands for a recursion that ran out of fuel.
  abbrev pub Ran : Type 0
  Ran = Option (Option ContextError × ℕ × S)

  -- A handler, which cannot call `Next`: the contexts that handlers get do not pass it on.
  abbrev pub Endpoint : Type 0
  Endpoint = S → Option ContextError × S

module _ {S : Type 0} where
  unfoldable pub after_ran : Ran S → (Option ContextError → ℕ → S → Ran S) → Ran S
  after_ran none f = none
  after_ran (some (e, index, s)) f = f e index s

  -- A middleware runs; `go` is `Next`. The field `index` of the context starts at -1 and is counted
  -- up first; here it is the number of calls so far.
  unfoldable pub run_script : (ℕ → S → Ran S) → Script S → ℕ → S → Ran S
  unfolding after_ran
  run_script go (returns e) index s = some (e, index, s)
  run_script go (reads f) index s = run_script go (f s) index s
  run_script go (writes t k) index s = run_script go k index t
  run_script go (calls_next k) index s =
      after_ran (go index s) λ e index' s'. run_script go (k e) index' s'

  unfoldable pub run_endpoint : Option (Endpoint S) → S → Option ContextError × S
  run_endpoint none s = (none, s)
  run_endpoint (some endpoint) s = endpoint s

  unfoldable pub enter_chain :
      (ℕ → S → Ran S) → Option (Script S) → Option (Endpoint S) → ℕ → S → Ran S
  unfolding run_script run_endpoint
  enter_chain go none endpoint index s =
      let (e, s') = run_endpoint endpoint s in some (e, index, s')
  enter_chain go (some middleware) endpoint index s = run_script go middleware index s

  -- `Next`, which calls a middleware that calls `Next`. The fuel bounds the depth of the calls.
  unfoldable pub next_at : ℕ → List (Script S) → Option (Endpoint S) → ℕ → S → Ran S
  unfolding nth enter_chain
  next_at zero chain endpoint index s = none
  next_at (suc fuel) chain endpoint index s =
      enter_chain (next_at fuel chain endpoint) (nth index chain) endpoint (suc index) s

  -- The first call. No call is deeper than the chain is long, and one.
  unfoldable pub base_next : List (Script S) → Option (Endpoint S) → S → Ran S
  unfolding next_at
  base_next chain endpoint s = next_at (suc (length chain)) chain endpoint 0 s
