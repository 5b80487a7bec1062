-- ===== src/Context/Chain/Termination.antt =====
-- The calls of `Next` end.
use ppgram.Prelude.{
  ℕ, zero, suc, ◌+◌, ◌≤◌, ◌<◌, List, [], ◌∷◌, Option, none, some, length, ◌≡◌, refl, arith,
}
use ppgram.Context.{ContextError}
use ppgram.Context.Chain.{
  nth, Script, returns, reads, writes, calls_next, Ran, Endpoint, after_ran, run_script,
  enter_chain, next_at, base_next,
}

-- An element that was found.
pub nth-some_lt {ℓ} : {A : Type ℓ} (n : ℕ) (xs : List A) {x : A} → nth n xs ≡ some x → n < length xs
unfolding nth
nth-some_lt n [] h = cc h
nth-some_lt zero (x ∷ xs) h = omega arith
nth-some_lt (suc n) (x ∷ xs) h = omega (arith, nth-some_lt n xs h)

module _ {S : Type 0} where
  -- A call has returned, and the index has not gone back.
  pub record Returned (index : ℕ) (r : Ran S) : Type 0 where
    pub error : Option ContextError
    pub reached : ℕ
    pub state : S
    pub returned : r ≡ some (error, reached, state)
    pub forward : index ≤ reached

  Returned-weaken : (i j : ℕ) (r : Ran S) → i ≤ j → Returned j r → Returned i r
  Returned-weaken i j r h k = record {
    error = k.error;
    reached = k.reached;
    state = k.state;
    returned = k.returned;
    forward = omega (arith, k.forward);
  }

  run_script-Returned :
      (go : ℕ → S → Ran S) (script : Script S) (index : ℕ) (s : S)
      → ((j : ℕ) (t : S) → index ≤ j → Returned j (go j t))
      → Returned index (run_script go script index s)
  unfolding run_script after_ran
  run_script-Returned go (returns e) index s h = record {
    error = e;
    reached = index;
    state = s;
    returned = refl;
    forward = omega arith;
  }
  run_script-Returned go (reads f) index s h = run_script-Returned go (f s) index s h
  run_script-Returned go (writes t k) index s h = run_script-Returned go k index t h
  run_script-Returned go (calls_next k) index s h =
      let called = h index s (omega arith) in
      rw called.returned (
        Returned-weaken index called.reached _ called.forward (
          run_script-Returned go (k called.error) called.reached called.state
            (λ j t l. h j t (omega (arith, called.forward)))))

  enter_chain-Returned :
      (go : ℕ → S → Ran S) (o : Option (Script S)) (endpoint : Option (Endpoint S)) (index : ℕ)
      (s : S)
      → ((m : Script S) → o ≡ some m → (j : ℕ) (t : S) → index ≤ j → Returned j (go j t))
      → Returned index (enter_chain go o endpoint index s)
  unfolding enter_chain
  enter_chain-Returned go none endpoint index s h = record {
    error = _;
    reached = index;
    state = _;
    returned = refl;
    forward = omega arith;
  }
  enter_chain-Returned go (some m) endpoint index s h = run_script-Returned go m index s (h m refl)

  next_at-Returned :
      (fuel : ℕ) (chain : List (Script S)) (endpoint : Option (Endpoint S)) (index : ℕ) (s : S)
      → length chain < fuel + index
      → 0 < fuel
      → Returned (suc index) (next_at fuel chain endpoint index s)
  unfolding next_at
  next_at-Returned zero chain endpoint index s h k = absurd (omega arith)
  next_at-Returned (suc fuel) chain endpoint index s h k =
      enter_chain-Returned (next_at fuel chain endpoint) (nth index chain) endpoint (suc index) s
        (λ m found j t l. Returned-weaken j (suc j) _ (omega arith) (
          next_at-Returned fuel chain endpoint j t (omega arith)
            (omega (arith, nth-some_lt index chain found))))

  -- The first call returns, whatever the middleware do.
  pub base_next-Returned :
      (chain : List (Script S)) (endpoint : Option (Endpoint S)) (s : S)
      → Returned 1 (base_next chain endpoint s)
  unfolding base_next
  base_next-Returned chain endpoint s =
      next_at-Returned (suc (length chain)) chain endpoint 0 s (omega arith) (omega arith)
