-- ===== src/Context/Chain/Tests.antt =====
-- A chain of two middleware at a state that counts.
use ppgram.Prelude.{ℕ, zero, suc, ◌+◌, ◌*◌, List, [], ◌∷◌, none, some, All, ◌≡◌, refl}
use ppgram.Context.{invalid_sequence}
use ppgram.Context.Chain.{
  nth, Script, returns, reads, writes, calls_next, Endpoint, after_ran, run_script, run_endpoint,
  enter_chain, next_at, base_next,
}
use ppgram.Context.Chain.Nesting.{NextOnce, Agrees, nest, base_next-Agrees}

-- One that refuses the state 0, and one that doubles the state before and adds one after.
abbrev chain : List (Script ℕ)
chain =
    reads
      (λ n. elim n [ zero ↦ returns (some invalid_sequence) | suc m ↦ calls_next λ e. returns e ])
    ∷ reads (λ n. writes (n * 2) (calls_next λ e. reads λ m. writes (m + 1) (returns e)))
    ∷ []

abbrev endpoint : Endpoint ℕ
endpoint n = (none, n + 10)

refused_or_not :
    (n : ℕ)
    → NextOnce {S = ℕ} (elim n as (λ _. Script ℕ) [
      | zero ↦ returns (some invalid_sequence)
      | suc m ↦ calls_next λ e. returns e
    ])
refused_or_not zero = tt
refused_or_not (suc n) = λ e. tt

chain-NextOnce : All NextOnce chain
chain-NextOnce = (refused_or_not, ((λ n e m. tt), tt))

passed : base_next chain (some endpoint) 3 ≡ some (none, 3, 17)
unfolding base_next next_at enter_chain nth run_script after_ran run_endpoint
passed = refl

refused : base_next chain (some endpoint) 0 ≡ some (some invalid_sequence, 1, 0)
unfolding base_next next_at enter_chain nth run_script after_ran run_endpoint
refused = refl

base_next-Agrees_example : Agrees (base_next chain (some endpoint) 3) (nest chain (some endpoint) 3)
base_next-Agrees_example = base_next-Agrees chain (some endpoint) 3 chain-NextOnce

-- A middleware that calls Next twice: the endpoint runs twice.
abbrev twice : List (Script ℕ)
twice = calls_next (λ e. calls_next λ e'. returns e') ∷ []

runs_twice : base_next twice (some endpoint) 3 ≡ some (none, 3, 23)
unfolding base_next next_at enter_chain nth run_script after_ran run_endpoint
runs_twice = refl
