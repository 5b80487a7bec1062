-- ===== src/Auth/TokenRefusals.antt =====
-- `LoginByToken` of server/auth/auth.go: tokens that are not there.
use ppgram.Prelude.{
  ℕ, false, List, [], ◌∷◌, none, GoString, codes, is_empty, ◌≡◌, refl, ap, ◌∙◌, arith, ◌=s=◌, ◌==◌,
}
use ppgram.Text.{trim_space}
use ppgram.Table.{exists}
use ppgram.Table.Keys.{Distinct}
use ppgram.Table.Rows.{exists-find}
use ppgram.Errors.{
  err, invalid_token, is_user_token_not_found, user_token_not_found, db_failure,
  db_missing_required_fields,
}
use ppgram.Database.{Time, UserToken, token_has_hash, done}
use ppgram.Database.Tokens.{select_active_token}
use ppgram.Database.Tokens.Issue.{active_with}
use ppgram.Backend.{Backend, pure, raise}
use ppgram.Backend.Returns.{Returns, >>=-step, >>=-stop, handle-stop}
use ppgram.Repository.{row_or, get_active_by_token_hash}
use ppgram.Password.{Crypto, hash_token}
use ppgram.Auth.{AuthResult, hide_no_token, login_by_token}
use ppgram.Auth.Refusals.{Steady, refuse_if->>-step, default_deps->>=-step, query-step}
use ppgram.Auth.TokenLogin.{login_by_token-Renewed}

none-active :
    (hash : List ℕ) (now : Time) (rows : List UserToken)
    → exists (token_has_hash hash) rows ≡ false
    → exists (active_with hash now) rows ≡ false
unfolding exists
none-active hash now [] h = refl
none-active hash now (t ∷ rows) h = ground (arith, none-active hash now rows)

row_or-none {ℓ} :
    {A : Type ℓ} (b : Backend)
    → row_or {A = A} user_token_not_found none b ≡ (err user_token_not_found, b)
unfolding row_or raise
row_or-none b = refl

hidden-none {ℓ} :
    {A : Type ℓ} (b : Backend)
    → hide_no_token {A = A} user_token_not_found b ≡ (err invalid_token, b)
unfolding hide_no_token is_user_token_not_found raise
hidden-none b = refl

module _ (crypto : Crypto) (session_token : GoString) where
  abbrev token_hash : List ℕ
  token_hash = hash_token crypto (trim_space session_token)

  get_active_by_token_hash-none :
      (b : Backend)
      → Steady b
      → is_empty token_hash ≡ false
      → exists (token_has_hash token_hash) b.db.user_tokens ≡ false
      → get_active_by_token_hash token_hash b ≡ (err user_token_not_found, b)
  unfolding get_active_by_token_hash
  get_active_by_token_hash-none b steady some_hash absent =
      let nothing =
        exists-find (active_with token_hash b.db_now) b.db.user_tokens
          (none-active token_hash b.db_now b.db.user_tokens absent) in
      let looked =
        query-step db_failure (select_active_token token_hash) none b steady.no_faults
          (unfold select_active_token in ap (λ o. (done o, b.db)) nothing) in
      refuse_if->>-step _ (db_missing_required_fields (codes "token_hash")) _ b some_hash
      ∙ >>=-step _ (row_or user_token_not_found) looked
      ∙ row_or-none b

  login_by_token-unknown :
      (b : Backend)
      → Steady b
      → is_empty (trim_space session_token) ≡ false
      → is_empty token_hash ≡ false
      → exists (token_has_hash token_hash) b.db.user_tokens ≡ false
      → login_by_token crypto session_token b ≡ (err invalid_token, b)
  unfolding login_by_token
  login_by_token-unknown b steady given some_hash absent =
      default_deps->>=-step _ b steady.ready
      ∙ refuse_if->>-step _ _ _ b given
      ∙ >>=-stop _ _ (
          handle-stop _ hide_no_token pure (get_active_by_token_hash-none b steady some_hash absent)
          ∙ hidden-none b)

  -- If token hashes and token ids are unique, the new token's hash is not the old one's, and
  -- neither the trimmed token nor its hash is empty, then after a successful login by a token, on
  -- connections that work, a second login by the same token is refused as invalid and changes
  -- nothing.
  pub login_by_token-once :
      (b b' : Backend) (result : AuthResult)
      → Distinct ◌=s=◌ (λ t. t.token_hash) b.db.user_tokens
      → Distinct ◌==◌ (λ t. t.token_id) b.db.user_tokens
      → (hash_token crypto result.session_token =s= token_hash) ≡ false
      → is_empty (trim_space session_token) ≡ false
      → is_empty token_hash ≡ false
      → Returns (login_by_token crypto session_token) b result b'
      → Steady b'
      → login_by_token crypto session_token b' ≡ (err invalid_token, b')
  login_by_token-once b b' result hashes ids differs given some_hash h steady =
      login_by_token-unknown b' steady given some_hash
        (login_by_token-Renewed crypto session_token b b' result hashes ids differs
          h).rotated.old_gone
