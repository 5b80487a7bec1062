-- ===== src/Context/Chain/Nesting.antt =====
-- The chain of middleware as a nesting of functions.
use ppgram.Prelude.{
  ℕ, zero, suc, ◌+◌, ◌<◌, List, [], ◌∷◌, drop, All, Option, some, length, ◌≡◌, refl, arith,
}
use ppgram.Context.{ContextError}
use ppgram.Context.Chain.{
  nth, Script, returns, reads, writes, calls_next, Ran, Endpoint, after_ran, run_script,
  run_endpoint, enter_chain, next_at, base_next,
}
use ppgram.Context.Chain.Termination.{nth-some_lt}

module _ {S : Type 0} where
  -- The middleware does not call `Next`.
  abbrev pub NoNext : Script S → Type 0
  NoNext (returns e) = Unit
  NoNext (reads f) = (s : S) → NoNext (f s)
  NoNext (writes s k) = NoNext k
  NoNext (calls_next k) = ⊥

  -- It calls `Next` at most once.
  abbrev pub NextOnce : Script S → Type 0
  NextOnce (returns e) = Unit
  NextOnce (reads f) = (s : S) → NextOnce (f s)
  NextOnce (writes s k) = NextOnce k
  NextOnce (calls_next k) = (e : Option ContextError) → NoNext (k e)

  -- A middleware around a function.
  unfoldable pub wrap : Endpoint S → Script S → Endpoint S
  wrap inner (returns e) s = (e, s)
  wrap inner (reads f) s = wrap inner (f s) s
  wrap inner (writes t k) s = wrap inner k t
  wrap inner (calls_next k) s = let (e, s') = inner s in wrap inner (k e) s'

  -- Each middleware is wrapped around the rest, the endpoint is in the middle.
  unfoldable pub nest : List (Script S) → Option (Endpoint S) → Endpoint S
  unfolding wrap
  nest [] endpoint = run_endpoint endpoint
  nest (middleware ∷ chain) endpoint = wrap (nest chain endpoint) middleware

  -- `Next` has returned what the function gives.
  abbrev pub Agrees : Ran S → Option ContextError × S → Type 0
  Agrees r x = (index : ℕ) × (r ≡ some (x.0, index, x.1))

  run_script-NoNext :
      (go : ℕ → S → Ran S) (inner : Endpoint S) (script : Script S) (index : ℕ) (s : S)
      → NoNext script
      → run_script go script index s
        ≡ some ((wrap inner script s).0, index, (wrap inner script s).1)
  unfolding run_script wrap
  run_script-NoNext go inner (returns e) index s h = refl
  run_script-NoNext go inner (reads f) index s h = run_script-NoNext go inner (f s) index s (h s)
  run_script-NoNext go inner (writes t k) index s h = run_script-NoNext go inner k index t h
  run_script-NoNext go inner (calls_next k) index s h = elim h [ ]

  run_script-Agrees :
      (go : ℕ → S → Ran S) (inner : Endpoint S) (script : Script S) (index : ℕ) (s : S)
      → NextOnce script
      → ((t : S) → Agrees (go index t) (inner t))
      → Agrees (run_script go script index s) (wrap inner script s)
  unfolding run_script wrap after_ran
  run_script-Agrees go inner (returns e) index s h calls = (index, refl)
  run_script-Agrees go inner (reads f) index s h calls =
      run_script-Agrees go inner (f s) index s (h s) calls
  run_script-Agrees go inner (writes t k) index s h calls =
      run_script-Agrees go inner k index t h calls
  run_script-Agrees go inner (calls_next k) index s h calls =
      let (reached, called) = calls s in
      rw called
        (reached, run_script-NoNext go inner (k (inner s).0) reached (inner s).1 (h (inner s).0))

  enter_chain-Agrees :
      (go : ℕ → S → Ran S) (chain : List (Script S)) (endpoint : Option (Endpoint S))
      (index next : ℕ) (s : S)
      → All NextOnce chain
      → ((t : S) (m : Script S)
          → nth index chain ≡ some m
          → Agrees (go next t) (nest (drop (suc index) chain) endpoint t))
      → Agrees
          (enter_chain go (nth index chain) endpoint next s)
          (nest (drop index chain) endpoint s)
  unfolding enter_chain nth nest
  enter_chain-Agrees go [] endpoint zero next s once calls = (next, refl)
  enter_chain-Agrees go [] endpoint (suc index) next s once calls = (next, refl)
  enter_chain-Agrees go (m ∷ chain) endpoint zero next s (h, once) calls =
      run_script-Agrees go (nest chain endpoint) m next s h (λ t. calls t m refl)
  enter_chain-Agrees go (m ∷ chain) endpoint (suc index) next s (h, once) calls =
      enter_chain-Agrees go chain endpoint index next s once calls

  next_at-Agrees :
      (fuel : ℕ) (chain : List (Script S)) (endpoint : Option (Endpoint S)) (index : ℕ) (s : S)
      → All NextOnce chain
      → length chain < fuel + index
      → 0 < fuel
      → Agrees (next_at fuel chain endpoint index s) (nest (drop index chain) endpoint s)
  unfolding next_at
  next_at-Agrees zero chain endpoint index s once h k = absurd (omega arith)
  next_at-Agrees (suc fuel) chain endpoint index s once h k =
      enter_chain-Agrees (next_at fuel chain endpoint) chain endpoint index (suc index) s once
        (λ t m found.
          next_at-Agrees fuel chain endpoint (suc index) t once (omega arith)
            (omega (arith, nth-some_lt index chain found)))

  -- If each middleware of a chain calls Next at most once, the calls of Next by the index give
  -- the error and the state that the functions give which wrap each middleware around the rest,
  -- with the endpoint in the middle.
  pub base_next-Agrees :
      (chain : List (Script S)) (endpoint : Option (Endpoint S)) (s : S)
      → All NextOnce chain
      → Agrees (base_next chain endpoint s) (nest chain endpoint s)
  unfolding base_next
  base_next-Agrees chain endpoint s once =
      next_at-Agrees (suc (length chain)) chain endpoint 0 s once (omega arith) (omega arith)
