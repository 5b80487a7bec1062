-- ===== src/Context/Chain/Preserves.antt =====
-- What each middleware and the endpoint preserve, the chain preserves.
use ppgram.Prelude.{ℕ, zero, suc, List, [], ◌∷◌, All, Option, none, some, length}
use ppgram.Context.{ContextError}
use ppgram.Context.Chain.{
  nth, Script, returns, reads, writes, calls_next, Ran, Endpoint, after_ran, run_script,
  run_endpoint, enter_chain, next_at, base_next,
}

module _ {S : Type 0} (P : S → Type 0) where
  -- A middleware writes only states with the property, if those that it reads have it.
  abbrev pub Preserves : Script S → Type 0
  Preserves (returns e) = Unit
  Preserves (reads f) = (s : S) → P s → Preserves (f s)
  Preserves (writes t k) = P t × Preserves k
  Preserves (calls_next k) = (e : Option ContextError) → Preserves (k e)

  -- The state at the end of a run.
  abbrev pub Leaves : Ran S → Type 0
  Leaves none = Unit
  Leaves (some (e, index, s)) = P s

  after_ran-Leaves :
      (r : Ran S) (f : Option ContextError → ℕ → S → Ran S)
      → Leaves r
      → ((e : Option ContextError) (index : ℕ) (s : S) → P s → Leaves (f e index s))
      → Leaves (after_ran r f)
  unfolding after_ran
  after_ran-Leaves none f h k = tt
  after_ran-Leaves (some (e, index, s)) f h k = k e index s h

  run_script-Leaves :
      (go : ℕ → S → Ran S) (script : Script S) (index : ℕ) (s : S)
      → ((j : ℕ) (t : S) → P t → Leaves (go j t))
      → Preserves script
      → P s
      → Leaves (run_script go script index s)
  unfolding run_script
  run_script-Leaves go (returns e) index s h k p = p
  run_script-Leaves go (reads f) index s h k p = run_script-Leaves go (f s) index s h (k s p) p
  run_script-Leaves go (writes t script) index s h (q, k) p =
      run_script-Leaves go script index t h k q
  run_script-Leaves go (calls_next k) index s h keeps p =
      after_ran-Leaves (go index s) _ (h index s p)
        (λ e j t q. run_script-Leaves go (k e) j t h (keeps e) q)

  enter_chain-Leaves :
      (go : ℕ → S → Ran S) (chain : List (Script S)) (endpoint : Endpoint S) (index next : ℕ)
      (s : S)
      → ((j : ℕ) (t : S) → P t → Leaves (go j t))
      → All Preserves chain
      → ((t : S) → P t → P (endpoint t).1)
      → P s
      → Leaves (enter_chain go (nth index chain) (some endpoint) next s)
  unfolding enter_chain nth run_endpoint
  enter_chain-Leaves go [] endpoint zero next s h k e p = e s p
  enter_chain-Leaves go [] endpoint (suc index) next s h k e p = e s p
  enter_chain-Leaves go (m ∷ chain) endpoint zero next s h (k, ks) e p =
      run_script-Leaves go m next s h k p
  enter_chain-Leaves go (m ∷ chain) endpoint (suc index) next s h (k, ks) e p =
      enter_chain-Leaves go chain endpoint index next s h ks e p

  next_at-Leaves :
      (fuel : ℕ) (chain : List (Script S)) (endpoint : Endpoint S) (index : ℕ) (s : S)
      → All Preserves chain
      → ((t : S) → P t → P (endpoint t).1)
      → P s
      → Leaves (next_at fuel chain (some endpoint) index s)
  unfolding next_at
  next_at-Leaves zero chain endpoint index s k e p = tt
  next_at-Leaves (suc fuel) chain endpoint index s k e p =
      enter_chain-Leaves (next_at fuel chain (some endpoint)) chain endpoint index (suc index) s
        (λ j t q. next_at-Leaves fuel chain endpoint j t k e q) k e p

  pub base_next-Leaves :
      (chain : List (Script S)) (endpoint : Endpoint S) (s : S)
      → All Preserves chain
      → ((t : S) → P t → P (endpoint t).1)
      → P s
      → Leaves (base_next chain (some endpoint) s)
  unfolding base_next
  base_next-Leaves chain endpoint s k e p =
      next_at-Leaves (suc (length chain)) chain endpoint 0 s k e p
