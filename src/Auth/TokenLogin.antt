-- ===== src/Auth/TokenLogin.antt =====
-- `LoginByToken` of server/auth/auth.go: a successful login.
use ppgram.Prelude.{ℕ, false, List, some, GoString, ◌≡◌, ap, sym, ◌∙◌, subst, inl, inr, ◌=s=◌, ◌==◌}
use ppgram.Text.{trim_space}
use ppgram.Table.{find, exists}
use ppgram.Table.Keys.{Distinct}
use ppgram.Errors.{Error, invalid_token, is_user_token_not_found}
use ppgram.Database.{UserToken, deletion_of}
use ppgram.Database.Tokens.Issue.{active_with}
use ppgram.Database.Tokens.Rotate.{Rotated, rotate_token-Rotated}
use ppgram.Backend.{Backend, Exec, pure, handle}
use ppgram.Backend.Returns.{Returns, >>=-Returns, handle-Returns, pure-Returns}
use ppgram.Repository.{get_active_by_token_hash, rotate_user_token}
use ppgram.Repository.Returns.{
  Untouched, refuse_if->>-Returns, get_active_by_token_hash-Returns, rotate_user_token-Returns,
}
use ppgram.Cache.Tables.{SameTables, SameTables-trans}
use ppgram.Password.{Crypto, hash_token, generate_session_token_pair}
use ppgram.Auth.{AuthResult, hide_no_token, reject_if_pending_deletion, login_by_token}
use ppgram.Auth.Steps.{
  default_deps->>=-Returns, either_raises, reject_if_pending_deletion-Returns,
  generate_session_token_pair-Returns,
}

hide_no_token-raises {ℓ} :
    {A : Type ℓ} (e : Error) (b b' : Backend) (a : A) → ¬ Returns (hide_no_token e) b a b'
unfolding hide_no_token
hide_no_token-raises e b b' a h = either_raises (is_user_token_not_found e) invalid_token e b b' a h

-- A call whose errors end the caller.
pub hidden-Returns {ℓ} :
    {A : Type ℓ} (m : Exec A) {b b' : Backend} {a : A}
    → Returns (handle m hide_no_token pure) b a b'
    → Returns m b a b'
hidden-Returns m {b} {b'} {a} h = elim (handle-Returns m _ _ h) [
  | inl (c, asked, rest) ↦
      let (same, stop) = pure-Returns rest in
      subst (λ x. Returns m b x b') same (subst (λ x. Returns m b c x) stop asked)
  | inr (e, failed, rest) ↦ elim (hide_no_token-raises e _ _ _ rest) [ ]
]

Untouched-SameTables : (b c : Backend) → Untouched b c → SameTables b c
Untouched-SameTables b c still =
    (ap (λ (x : Backend). x.db) still, ap (λ (x : Backend). x.db_now) still)

module _ (crypto : Crypto) (session_token : GoString) where
  abbrev old_hash : List ℕ
  old_hash = hash_token crypto (trim_space session_token)

  -- What a login with the token finds and leaves behind.
  pub record Renewed (b b' : Backend) (result : AuthResult) : Type 0 where
    pub token : UserToken
    pub found : find (active_with old_hash b.db_now) b.db.user_tokens ≡ some token
    pub not_pending :
        exists (deletion_of (trim_space token.user_id)) b.db.pending_account_deletions ≡ false
    pub user_id : result.user_id ≡ token.user_id
    pub device_id : result.device_id ≡ token.device_id
    pub rotated :
        Rotated old_hash (hash_token crypto result.session_token) b.db_now b'.db.user_tokens token

  -- The last statement, where the tables are still those of the start.
  Rotated-steps :
      (b e b' : Backend) (token : UserToken) (new : List ℕ) {u : Unit {0}}
      → Distinct ◌=s=◌ (λ t. t.token_hash) b.db.user_tokens
      → Distinct ◌==◌ (λ t. t.token_id) b.db.user_tokens
      → (new =s= old_hash) ≡ false
      → find (active_with old_hash b.db_now) b.db.user_tokens ≡ some token
      → SameTables b e
      → Returns (rotate_user_token token.token_id new) e u b'
      → Rotated old_hash new b.db_now b'.db.user_tokens token
  Rotated-steps b e b' token new hashes ids differs found same h =
      let (answer, state) = rotate_user_token-Returns token.token_id new e h in
      let answer' = rw (same.0, same.1) at answer in
      let (rotated, users) =
        rotate_token-Rotated old_hash new b.db_now b.db token differs hashes ids found answer' in
      rw (ap (λ (x : Backend). x.db.user_tokens) state, same.0, same.1) rotated

  -- If token hashes and token ids are unique and the new token's hash is not the old one's, a
  -- successful login by a token has found the active token by the hash of the trimmed text and
  -- seen no pending deletion of its user; afterwards the token is active under the hash of the
  -- returned text, and no token has the old hash.
  pub login_by_token-Renewed :
      (b b' : Backend) (result : AuthResult)
      → Distinct ◌=s=◌ (λ t. t.token_hash) b.db.user_tokens
      → Distinct ◌==◌ (λ t. t.token_id) b.db.user_tokens
      → (hash_token crypto result.session_token =s= old_hash) ≡ false
      → Returns (login_by_token crypto session_token) b result b'
      → Renewed b b' result
  unfolding login_by_token
  login_by_token-Renewed b b' result hashes ids differs h =
      let (ready, h1) = default_deps->>=-Returns _ h in
      let (given, h2) = refuse_if->>-Returns _ _ _ h1 in
      let (token, asked, h3) = >>=-Returns _ _ h2 in
      let (found, still) = get_active_by_token_hash-Returns old_hash b (hidden-Returns _ asked) in
      let c = (handle (get_active_by_token_hash old_hash) hide_no_token pure b).1 in
      let (u, allowed, h4) = >>=-Returns _ _ h3 in
      let (not_pending, still') = reject_if_pending_deletion-Returns token.user_id c allowed in
      let d = (reject_if_pending_deletion token.user_id c).1 in
      let (pair, drawn, h5) = >>=-Returns _ _ h4 in
      let (hash, drew) = generate_session_token_pair-Returns crypto d drawn in
      let e = (generate_session_token_pair crypto d).1 in
      let (v, replaced, h6) = >>=-Returns _ _ h5 in
      let (same, stop) = pure-Returns h6 in
      let new = hash_token crypto result.session_token in
      let text : pair.0 ≡ result.session_token = ap (λ (r : AuthResult). r.session_token) same in
      let replaced' : Returns (rotate_user_token token.token_id pair.1) e v b' =
        subst (λ x. Returns (rotate_user_token token.token_id pair.1) e v x) stop
          (hidden-Returns _ replaced) in
      let with_new : Returns (rotate_user_token token.token_id new) e v b' =
        subst (λ x. Returns (rotate_user_token token.token_id x) e v b')
          (hash ∙ ap (hash_token crypto) text) replaced' in
      let unchanged : SameTables b e = SameTables-trans b c e (Untouched-SameTables b c still) (
        SameTables-trans c d e (Untouched-SameTables c d still')
          (ap (λ (x : Backend). x.db) drew, ap (λ (x : Backend). x.db_now) drew)) in
      record {
        token = token;
        found = found;
        not_pending = rw still at not_pending;
        user_id = sym (ap (λ (r : AuthResult). r.user_id) same);
        device_id = sym (ap (λ (r : AuthResult). r.device_id) same);
        rotated = Rotated-steps b e b' token new hashes ids differs found unchanged with_new;
      }
