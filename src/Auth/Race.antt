-- ===== src/Auth/Race.antt =====
-- Two logins by the same token at the same time: `LoginByToken` of server/auth/auth.go, in its
-- statements that read and its statement that writes.
mod Tests
use ppgram.Prelude.{
  ℕ, Bool, true, false, not, ◌&&◌, ◌==◌, List, [], ◌∷◌, some, GoString, is_empty, ◌≡◌, refl, ap,
  sym, ◌∙◌, subst, fun_ext, arith, Bool-cases, inl, inr, ◌=s=◌, str_eq_iff,
}
use ppgram.Text.{trim_space}
use ppgram.Table.{find, update, exists}
use ppgram.Errors.{Error, Result, ok, err, session_token_needed}
use ppgram.Database.{Time, UserToken, Database, done, token_has_hash}
use ppgram.Database.Tokens.{rotate, token_has_id, rotate_token}
use ppgram.Database.Tokens.Issue.{active_with}
use ppgram.Backend.{Backend, Exec, pure, continue, ◌>>=◌, ◌>>◌, handle, refuse_if}
use ppgram.Backend.Returns.{Returns, >>=-Returns, pure-Returns}
use ppgram.Repository.{get_active_by_token_hash, rotate_user_token}
use ppgram.Repository.Returns.{
  Untouched, Untouched-trans, refuse_if->>-Returns, get_active_by_token_hash-Returns,
  rotate_user_token-Returns,
}
use ppgram.Password.{Crypto, hash_token, generate_session_token_pair}
use ppgram.Auth.{
  AuthResult, default_deps, hide_no_token, reject_if_pending_deletion, login_by_token,
}
use ppgram.Auth.Steps.{
  default_deps->>=-Returns, reject_if_pending_deletion-Returns, generate_session_token_pair-Returns,
}
use ppgram.Auth.TokenLogin.{hidden-Returns}

-- What is done with the row that was found.
unfoldable pub login_writes : Crypto → UserToken → Exec AuthResult
login_writes crypto stored_token = do
  (new_token, new_token_hash) ← generate_session_token_pair crypto
  handle (rotate_user_token stored_token.token_id new_token_hash) hide_no_token pure
  pure (record {
    user_id = stored_token.user_id;
    device_id = stored_token.device_id;
    device_name = stored_token.device_name;
    session_token = new_token;
  })

unfoldable pub login_reads : Crypto → GoString → Exec UserToken
login_reads crypto session_token =
    let token = trim_space session_token in
    do
      default_deps
      refuse_if (is_empty token) session_token_needed
      stored_token ← handle (get_active_by_token_hash (hash_token crypto token)) hide_no_token pure
      reject_if_pending_deletion stored_token.user_id
      pure stored_token

continue_assoc {ℓ κ μ} :
    {A : Type ℓ} {B : Type κ} {C : Type μ} (r : Result A × Backend) (f : A → Exec B)
    (g : B → Exec C)
    → continue (continue r f) g ≡ continue r (λ a b. continue (f a b) g)
unfolding continue
continue_assoc (ok a, b) f g = refl
continue_assoc (err e, b) f g = refl

bind_assoc {ℓ κ μ} :
    {A : Type ℓ} {B : Type κ} {C : Type μ} (m : Exec A) (f : A → Exec B) (g : B → Exec C)
    → ((m >>= f) >>= g) ≡ (m >>= λ a. f a >>= g)
unfolding ◌>>=◌
bind_assoc m f g = fun_ext λ b. continue_assoc (m b) f g

pure->>= {ℓ κ} : {A : Type ℓ} {B : Type κ} (a : A) (g : A → Exec B) → (pure a >>= g) ≡ g a
unfolding pure continue ◌>>=◌
pure->>= a g = refl

-- The two parts, one after the other, are the login.
pub login_by_token-parts :
    (crypto : Crypto) (session_token : GoString)
    → (login_reads crypto session_token >>= login_writes crypto)
      ≡ login_by_token crypto session_token
unfolding login_by_token login_reads
login_by_token-parts crypto session_token =
    let checked = refuse_if (is_empty (trim_space session_token)) session_token_needed in
    let found : Exec UserToken =
      handle (get_active_by_token_hash (hash_token crypto (trim_space session_token))) hide_no_token
        pure in
    let write = login_writes crypto in
    bind_assoc default_deps _ write
    ∙ ap (λ (m : Exec AuthResult). default_deps >>= λ _. m)
        (bind_assoc checked _ write
          ∙ ap (λ (m : Exec AuthResult). checked >>= λ _. m)
              (bind_assoc found _ write
                ∙ ap (λ (f : UserToken → Exec AuthResult). found >>= f)
                    (fun_ext λ t.
                      bind_assoc (reject_if_pending_deletion t.user_id) _ write
                      ∙ ap
                          (λ (m : Exec AuthResult). reject_if_pending_deletion t.user_id >>= λ _. m)
                          (pure->>= t write ∙ unfold login_writes in refl))))

-- A rotation that was done: no other row had the new hash.
rotate_token-done :
    (id : ℕ) (new : List ℕ) (now : Time) (db : Database)
    → (rotate_token id new now db).0 ≡ done true
    → (exists (λ t. token_has_hash new t && not (token_has_id id t)) db.user_tokens ≡ false)
      × ((rotate_token id new now db).1.user_tokens
          ≡ update (token_has_id id) (rotate new now) db.user_tokens)
unfolding rotate_token
rotate_token-done id new now db h =
    let fresh = λ (t : UserToken). token_has_hash new t && not (token_has_id id t) in
    elim (Bool-cases (exists (token_has_id id) db.user_tokens)) [
      | inr absent ↦ cc (rw absent at h)
      | inl there ↦ elim (Bool-cases (exists fresh db.user_tokens)) [
        | inl clash ↦ cc (rw (there, clash) at h)
        | inr new_hash ↦ rw (there, new_hash) (refl, refl)
      ]
    ]

-- A second rotation of the same row takes the hash of the first away.
rotated_away :
    (id : ℕ) (new new' : List ℕ) (now now' : Time) (rows : List UserToken)
    → (new' =s= new) ≡ false
    → exists (λ t. token_has_hash new t && not (token_has_id id t)) rows ≡ false
    → exists (token_has_hash new) (
        update
          (token_has_id id)
          (rotate new' now')
          (update (token_has_id id) (rotate new now) rows))
      ≡ false
unfolding exists update
rotated_away id new new' now now' [] differs h = refl
rotated_away id new new' now now' (t ∷ rows) differs h =
    ground (arith, rotated_away id new new' now now' rows differs)

module _ (crypto : Crypto) where
  login_reads-Returns :
      (session_token : GoString) (b : Backend) {b' : Backend} {t : UserToken}
      → Returns (login_reads crypto session_token) b t b'
      → (find (active_with (hash_token crypto (trim_space session_token)) b.db_now) b.db.user_tokens
          ≡ some t)
        × Untouched b b'
  unfolding login_reads
  login_reads-Returns session_token b {b'} h =
      let (ready, h1) = default_deps->>=-Returns _ h in
      let (given, h2) = refuse_if->>-Returns _ _ _ h1 in
      let (token, asked, h3) = >>=-Returns _ _ h2 in
      let old_hash = hash_token crypto (trim_space session_token) in
      let (found, still) = get_active_by_token_hash-Returns old_hash b (hidden-Returns _ asked) in
      let c = (handle (get_active_by_token_hash old_hash) hide_no_token pure b).1 in
      let (u, allowed, h4) = >>=-Returns _ _ h3 in
      let (not_pending, still') = reject_if_pending_deletion-Returns token.user_id c allowed in
      let d = (reject_if_pending_deletion token.user_id c).1 in
      let (same, stop) = pure-Returns h4 in
      (
        found ∙ ap (λ (t : UserToken). some t) same,
        subst (Untouched b) stop (Untouched-trans b c d still still'),
      )

  login_writes-Returns :
      (t : UserToken) (b : Backend) {b' : Backend} {result : AuthResult}
      → Returns (login_writes crypto t) b result b'
      → ((rotate_token t.token_id (hash_token crypto result.session_token) b.db_now b.db).0
          ≡ done true)
        × (b'.db
            ≡ (rotate_token t.token_id (hash_token crypto result.session_token) b.db_now b.db).1)
  unfolding login_writes
  login_writes-Returns t b {b'} {result} h =
      let (pair, drawn, h1) = >>=-Returns _ _ h in
      let (hash, drew) = generate_session_token_pair-Returns crypto b drawn in
      let e = (generate_session_token_pair crypto b).1 in
      let (v, replaced, h2) = >>=-Returns _ _ h1 in
      let (same, stop) = pure-Returns h2 in
      let text : pair.0 ≡ result.session_token = ap (λ (r : AuthResult). r.session_token) same in
      let new = hash_token crypto result.session_token in
      let replaced' : Returns (rotate_user_token t.token_id pair.1) e v b' =
        subst (λ x. Returns (rotate_user_token t.token_id pair.1) e v x) stop
          (hidden-Returns _ replaced) in
      let with_new : Returns (rotate_user_token t.token_id new) e v b' =
        subst (λ x. Returns (rotate_user_token t.token_id x) e v b')
          (hash ∙ ap (hash_token crypto) text) replaced' in
      let (answer, state) = rotate_user_token-Returns t.token_id new e with_new in
      (
        ap (λ (x : Backend). (rotate_token t.token_id new x.db_now x.db).0) (sym drew) ∙ answer,
        ap (λ (x : Backend). x.db) state
            ∙ ap (λ (x : Backend). (rotate_token t.token_id new x.db_now x.db).1) drew,
      )

  -- If two logins by the same token have both read the row of the token before either writes,
  -- both succeed, and the hashes of their new tokens differ, then both were given the same row,
  -- and no token has the hash of the text that the first one was given: it cannot be used.
  pub login_by_token-race :
      (session_token : GoString) (b b1 b2 b3 b4 : Backend) (t t' : UserToken)
      (first second : AuthResult)
      → Returns (login_reads crypto session_token) b t b1
      → Returns (login_reads crypto session_token) b1 t' b2
      → Returns (login_writes crypto t) b2 first b3
      → Returns (login_writes crypto t') b3 second b4
      → (hash_token crypto second.session_token =s= hash_token crypto first.session_token) ≡ false
      → (t' ≡ t)
        × (exists (token_has_hash (hash_token crypto first.session_token)) b4.db.user_tokens
            ≡ false)
  login_by_token-race session_token b b1 b2 b3 b4 t t' first second h1 h2 h3 h4 differs =
      let (found, still) = login_reads-Returns session_token b h1 in
      let (found', still') = login_reads-Returns session_token b1 h2 in
      let hash = hash_token crypto (trim_space session_token) in
      let same : t' ≡ t = cc (
        found,
        sym (ap (λ (x : Backend). find (active_with hash x.db_now) x.db.user_tokens) still)
            ∙ found',
      ) in
      let new = hash_token crypto first.session_token in
      let new' = hash_token crypto second.session_token in
      let (answer, tables) = login_writes-Returns t b2 h3 in
      let (answer', tables') =
        login_writes-Returns t b3
          (subst (λ x. Returns (login_writes crypto x) b3 second b4) same h4) in
      let (fresh, updated) = rotate_token-done t.token_id new b2.db_now b2.db answer in
      let (fresh', updated') = rotate_token-done t.token_id new' b3.db_now b3.db answer' in
      let rows : b4.db.user_tokens
          ≡ update (token_has_id t.token_id) (rotate new' b3.db_now)
              (update (token_has_id t.token_id) (rotate new b2.db_now) b2.db.user_tokens) =
        ap (λ (d : Database). d.user_tokens) tables'
        ∙ updated'
        ∙ ap (update (token_has_id t.token_id) (rotate new' b3.db_now))
            (ap (λ (d : Database). d.user_tokens) tables ∙ updated) in
      (
        same,
        ap (exists (token_has_hash new)) rows
            ∙ rotated_away t.token_id new new' b2.db_now b3.db_now b2.db.user_tokens differs fresh,
      )
