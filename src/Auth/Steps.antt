-- ===== src/Auth/Steps.antt =====
-- What a successful step of the functions of server/auth/auth.go says of the tables.
use ppgram.Prelude.{
  ℕ, ◌+◌, Bool, true, false, List, some, GoString, ◌≡◌, refl, ap, sym, ◌∙◌, subst, All,
  if◌then◌else◌, inl, inr,
}
use ppgram.Text.{trim_space}
use ppgram.Table.{find, exists}
use ppgram.Errors.{
  Error, Result, ok, err, default_db_not_initialized, invalid_credentials, account_pending_deletion,
  is_user_not_found,
}
use ppgram.Database.{User, user_has_name, deletion_of}
use ppgram.Database.Tokens.Issue.{NeverExpires, Issued, upsert_token-Issued}
use ppgram.Backend.{Backend, Exec, pure, raise, read_random, handle, ◌>>=◌, ◌>>◌}
use ppgram.Backend.Returns.{Returns, >>=-Returns, handle-Returns, pure-Returns, refuse_if-Returns}
use ppgram.Repository.{get_user_by_username, upsert_active_token}
use ppgram.Repository.Returns.{
  Untouched, get_user_by_username-Returns, exists_active_by_user_id-Returns,
  upsert_active_token-Returns,
}
use ppgram.Password.{Crypto, hash_token, generate_session_token_pair}
use ppgram.Auth.{
  AuthResult, default_deps, hide_not_found, check_password, reject_if_pending_deletion, issue_token,
}

checked-Returns {ℓ} :
    {A : Type ℓ} (t : Bool) (a : A) (e : Error) {c : A} {b b' : Backend}
    → Returns (λ _. if t then (ok a, b) else (err e, b)) b c b'
    → (t ≡ true) × (a ≡ c) × (b ≡ b')
checked-Returns true a e h = (refl, cc (ap (λ r. r.0) h), ap (λ r. r.1) h)
checked-Returns false a e h = cc (ap (λ r. r.0) h)

pub default_deps-Returns :
    {b b' : Backend} {redis : Bool}
    → Returns default_deps b redis b'
    → (b.db_ready ≡ true) × (b.redis_ready ≡ redis) × (b ≡ b')
unfolding default_deps
default_deps-Returns {b} h = checked-Returns b.db_ready b.redis_ready default_db_not_initialized h

-- The same in front of the rest of a method.
pub default_deps->>=-Returns {ℓ} :
    {A : Type ℓ} (f : Bool → Exec A) {b b' : Backend} {a : A}
    → Returns (default_deps >>= f) b a b'
    → (b.db_ready ≡ true) × Returns (f b.redis_ready) b a b'
default_deps->>=-Returns f {b} {b'} {a} h =
    let (redis, deps, rest) = >>=-Returns default_deps f h in
    let (ready, redis_ready, same) = default_deps-Returns deps in
    (
      ready,
      subst (λ (c : Backend). Returns (f b.redis_ready) c a b') (sym same)
          (subst (λ r. Returns (f r) (default_deps b).1 a b') (sym redis_ready) rest),
    )

check_password-Returns :
    (r : Result Bool) {b b' : Backend} {u : Unit {0}}
    → Returns (check_password r) b u b'
    → (r ≡ ok true) × (b ≡ b')
unfolding check_password
check_password-Returns (ok true) h = (refl, (pure-Returns h).1)
check_password-Returns (ok false) h = unfold raise in cc (ap (λ x. x.0) h)
check_password-Returns (err e) h = unfold raise in cc (ap (λ x. x.0) h)

pub check_password->>-Returns {ℓ} :
    {A : Type ℓ} (r : Result Bool) (m : Exec A) {b b' : Backend} {a : A}
    → Returns (check_password r >> m) b a b'
    → (r ≡ ok true) × Returns m b a b'
check_password->>-Returns r m {b} {b'} {a} h =
    let (u, passed, rest) = >>=-Returns (check_password r) (λ _. m) h in
    let (right, still) = check_password-Returns r passed in
    (right, subst (λ c. Returns m c a b') (sym still) rest)

pub either_raises {ℓ} :
    {A : Type ℓ} (t : Bool) (e e' : Error) (b b' : Backend) (a : A)
    → ¬ Returns (if t then raise e else raise e') b a b'
unfolding raise
either_raises true e e' b b' a h = cc (ap (λ x. x.0) h)
either_raises false e e' b b' a h = cc (ap (λ x. x.0) h)

pub hide_not_found-raises {ℓ} :
    {A : Type ℓ} (e : Error) (b b' : Backend) (a : A) → ¬ Returns (hide_not_found e) b a b'
unfolding hide_not_found
hide_not_found-raises e b b' a h =
    either_raises (is_user_not_found e) invalid_credentials e b b' a h

pub reject_if_pending_deletion-Returns :
    (user_id : GoString) (b : Backend) {b' : Backend} {u : Unit {0}}
    → Returns (reject_if_pending_deletion user_id) b u b'
    → (exists (deletion_of (trim_space user_id)) b.db.pending_account_deletions ≡ false)
      × Untouched b b'
unfolding reject_if_pending_deletion
reject_if_pending_deletion-Returns user_id b h =
    let (pending, asked, rest) = >>=-Returns _ _ h in
    let (same, still) = exists_active_by_user_id-Returns user_id b asked in
    let (none_there, stop) = refuse_if-Returns pending account_pending_deletion rest in
    (same ∙ none_there, subst (Untouched b) stop still)

-- The user that a method finds where its errors end the caller.
pub found_user-Returns :
    (name : GoString) (b : Backend) {b' : Backend} {user : User}
    → Returns (handle (get_user_by_username name) hide_not_found pure) b user b'
    → (find (user_has_name (trim_space name)) b.db.users ≡ some user) × Untouched b b'
found_user-Returns name b h = elim (handle-Returns _ _ _ h) [
  | inl (user, asked, rest) ↦
      let (same, stop) = pure-Returns rest in
      let (found, still) = get_user_by_username-Returns name b asked in
      (found ∙ ap (λ x. some x) same, subst (Untouched b) stop still)
  | inr (e, failed, rest) ↦ elim (hide_not_found-raises e _ _ _ rest) [ ]
]

-- What `upsert_active_token` promises of the tables: the user has an active token on the device with
-- the hash, and the other tables are as they were.
pub record IssuedIn (user_id : GoString) (token_hash : List ℕ) (device_id device_name : GoString)
    (b b' : Backend) : Type 0 where
  pub issued :
      Issued
        (trim_space user_id)
        token_hash
        (trim_space device_id)
        (trim_space device_name)
        b.db_now
        b'.db.user_tokens
  pub users : b'.db.users ≡ b.db.users
  pub deletions : b'.db.pending_account_deletions ≡ b.db.pending_account_deletions

-- It is so too from where only the connections' future was another.
pub IssuedIn-Untouched :
    (user_id : GoString) (token_hash : List ℕ) (device_id device_name : GoString) (b c b' : Backend)
    → Untouched b c
    → IssuedIn user_id token_hash device_id device_name c b'
    → IssuedIn user_id token_hash device_id device_name b b'
IssuedIn-Untouched user_id token_hash device_id device_name b c b' still h = record {
  issued =
      subst
        (λ t.
          Issued (trim_space user_id) token_hash (trim_space device_id) (trim_space device_name) t
            b'.db.user_tokens)
        (ap (λ (x : Backend). x.db_now) still) h.issued;
  users = h.users ∙ ap (λ (x : Backend). x.db.users) still;
  deletions = h.deletions ∙ ap (λ (x : Backend). x.db.pending_account_deletions) still;
}

upsert_active_token-IssuedIn :
    (user_id device_id device_name : GoString) (token_hash : List ℕ) (b : Backend) {b' : Backend}
    {u : Unit {0}}
    → All NeverExpires b.db.user_tokens
    → Returns (upsert_active_token user_id device_id device_name token_hash) b u b'
    → IssuedIn user_id token_hash device_id device_name b b'
upsert_active_token-IssuedIn user_id device_id device_name token_hash b never h =
    let (answer, state) =
      upsert_active_token-Returns user_id device_id device_name token_hash b h in
    let (issued, users, deletions) =
      upsert_token-Issued (trim_space user_id) token_hash (trim_space device_id)
        (trim_space device_name) b.db_now b.db never answer in
    rw state (record { issued = issued; users = users; deletions = deletions })

module _ (crypto : Crypto) where
  pub generate_session_token_pair-Returns :
      (b : Backend) {b' : Backend} {pair : GoString × List ℕ}
      → Returns (generate_session_token_pair crypto) b pair b'
      → (pair.1 ≡ hash_token crypto pair.0) × (b' ≡ record b { draws = b.draws + 1 })
  unfolding generate_session_token_pair
  generate_session_token_pair-Returns b h =
      let (buf, drawn, rest) = >>=-Returns _ _ h in
      let (same, stop) = pure-Returns rest in
      (
        sym (ap (λ (p : GoString × List ℕ). p.1) same)
            ∙ ap (λ (p : GoString × List ℕ). hash_token crypto p.0) same,
        sym stop ∙ unfold read_random in refl,
      )

  abbrev token_result : GoString → GoString → GoString → GoString → AuthResult
  token_result user_id device_id device_name session_token = record {
    user_id = user_id;
    device_id = device_id;
    device_name = device_name;
    session_token = session_token;
  }

  -- A token that was issued is active, and what the caller gets is the text that it is the hash of.
  pub issue_token-Returns :
      (user_id device_id device_name : GoString) (b : Backend) {b' : Backend} {result : AuthResult}
      → All NeverExpires b.db.user_tokens
      → Returns (issue_token crypto user_id device_id device_name) b result b'
      → IssuedIn user_id (hash_token crypto result.session_token) device_id device_name b b'
        × (result ≡ token_result user_id device_id device_name result.session_token)
  unfolding issue_token
  issue_token-Returns user_id device_id device_name b {b'} {result} never h =
      let (pair, drawn, h1) = >>=-Returns _ _ h in
      let (u, upserted, rest) = >>=-Returns _ _ h1 in
      let (same, stop) = pure-Returns rest in
      let (hash, after) = generate_session_token_pair-Returns b drawn in
      let upserted' : Returns (upsert_active_token user_id device_id device_name pair.1)
          (record b { draws = b.draws + 1 }) u b' =
        subst
          (λ (c : Backend).
            Returns (upsert_active_token user_id device_id device_name pair.1) c u b')
          after
          (subst
            (λ (c : Backend).
              Returns (upsert_active_token user_id device_id device_name pair.1)
                (generate_session_token_pair crypto b).1 u c)
            stop upserted) in
      let issued =
        upsert_active_token-IssuedIn user_id device_id device_name pair.1 _ never upserted' in
      let text : pair.0 ≡ result.session_token = ap (λ (r : AuthResult). r.session_token) same in
      (
        subst (λ x. IssuedIn user_id x device_id device_name b b')
            (hash ∙ ap (hash_token crypto) text)
            (record { issued = issued.issued; users = issued.users; deletions = issued.deletions }),
        sym same ∙ ap (token_result user_id device_id device_name) text,
      )
