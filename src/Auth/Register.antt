-- ===== src/Auth/Register.antt =====
-- `Register` of server/auth/auth.go: a successful registration.
use ppgram.Prelude.{
  ℕ, ◌+◌, Bool, true, false, List, [], ◌∷◌, ◌++◌, GoString, ◌≡◌, refl, ap, sym, ◌∙◌, subst, All,
  arith, ◌||◌, Bool-cases, inl, inr,
}
use ppgram.Text.{trim_space}
use ppgram.Text.Trim.{trim_space_idem}
use ppgram.Username.{valid_username}
use ppgram.Username.Normal.{trim_space_of_valid}
use ppgram.Table.{exists}
use ppgram.Database.{Time, Database, User, done, user_has_id, user_has_name}
use ppgram.Database.Users.{insert_user, user_row}
use ppgram.Database.Tokens.Issue.{NeverExpires, Issued}
use ppgram.Backend.{Backend, read_random}
use ppgram.Backend.Returns.{Returns, >>=-Returns, pure-Returns}
use ppgram.Repository.{create_user, is_username_available}
use ppgram.Repository.Returns.{
  refuse_if->>-Returns, is_username_available-Returns, create_user-Returns,
}
use ppgram.Cache.Tables.{
  SameTables, SameTables-trans, Spares, >>=-Spares, handle-Spares, pure-Spares, refuse_if-Spares,
  cached_username_exists-Spares, set_username-Spares,
}
use ppgram.Password.{
  Crypto, hash_password, hash_token, encode_hash, iterations, memory, parallelism, key_len,
}
use ppgram.Auth.{
  AuthCredentials, AuthResult, reject_if_cached, cache_username, issue_token, register,
}
use ppgram.Auth.Login.{login_name}
use ppgram.Auth.Steps.{default_deps->>=-Returns, issue_token-Returns}

reject_if_cached-Spares : (redis : Bool) (name : GoString) → Spares (reject_if_cached redis name)
unfolding reject_if_cached
reject_if_cached-Spares true name =
    >>=-Spares _ _ (cached_username_exists-Spares name) λ _. refuse_if-Spares _ _
reject_if_cached-Spares false name = pure-Spares tt

cache_username-Spares :
    (redis : Bool) (name user_id : GoString) → Spares (cache_username redis name user_id)
unfolding cache_username
cache_username-Spares true name user_id =
    handle-Spares _ _ _ (set_username-Spares name user_id) (λ _. pure-Spares tt) pure-Spares
cache_username-Spares false name user_id = pure-Spares tt

-- The row that an INSERT has added was new.
insert_user-done :
    (username display_name password_hash : GoString) (now : Time) (db : Database) {user : User}
    → (insert_user username display_name password_hash now db).0 ≡ done user
    → (exists (user_has_name username) db.users ≡ false)
      × (user ≡ user_row username display_name password_hash now db)
      × ((insert_user username display_name password_hash now db).1
          ≡ record db { users = db.users ++ user ∷ []; drawn = db.drawn + 1 })
unfolding insert_user
insert_user-done username display_name password_hash now db {user} h =
    elim (Bool-cases (
      exists (user_has_id (db.uuids db.drawn)) db.users
      || exists (user_has_name username) db.users)) [
        | inl clash ↦ cc (rw clash at h)
        | inr new ↦
            let same : user_row username display_name password_hash now db ≡ user =
              cc (rw new at h) in
            (ground arith, sym same, rw (new, same) refl)
      ]

module _ (crypto : Crypto) where
  -- A hash with some salt.
  pub hash_password-Returns :
      (password : GoString) (b : Backend) {b' : Backend} {hash : GoString}
      → Returns (hash_password crypto password) b hash b'
      → (salt : List ℕ) × (hash
          ≡ encode_hash salt (crypto.argon2 password salt iterations memory parallelism key_len))
        × (b' ≡ record b { draws = b.draws + 1 })
  unfolding hash_password
  hash_password-Returns password b h =
      let (salt, drawn, rest) = >>=-Returns _ _ h in
      let (same, stop) = pure-Returns rest in
      (salt, sym same, sym stop ∙ unfold read_random in refl)

  module _ (creds : AuthCredentials) where
    -- What registering with the credentials has found and what it has added.
    pub record Registered (b b' : Backend) (result : AuthResult) : Type 0 where
      pub user : User
      pub valid : valid_username (login_name crypto creds) ≡ true
      pub free : exists (user_has_name (login_name crypto creds)) b.db.users ≡ false
      pub users : b'.db.users ≡ b.db.users ++ user ∷ []
      pub deletions : b'.db.pending_account_deletions ≡ b.db.pending_account_deletions
      pub username : user.username ≡ login_name crypto creds
      pub display_name : user.display_name ≡ trim_space creds.display_name
      pub salt : List ℕ
      pub password_hash :
          user.password_hash
          ≡ encode_hash salt
              (crypto.argon2 creds.password salt iterations memory parallelism key_len)
      pub user_id : result.user_id ≡ user.id
      pub issued :
          Issued
            (trim_space user.id)
            (hash_token crypto result.session_token)
            (trim_space (trim_space creds.device_id))
            (trim_space (trim_space creds.device_name))
            b.db_now
            b'.db.user_tokens

    -- From the parts of a registration to the whole: up to `c` only tables are read, `d` has the new
    -- user and `e` the name in Redis.
    Registered-steps :
        (b c d e b' : Backend) (result : AuthResult) (user : User) (salt : List ℕ) (hash : GoString)
        → let name = login_name crypto creds in
          let device_name = trim_space creds.device_name in
          valid_username name ≡ true
          → SameTables b c
          → hash
            ≡ encode_hash salt
                (crypto.argon2 creds.password salt iterations memory parallelism key_len)
          → Returns (create_user name (trim_space creds.display_name) hash) c user d
          → SameTables d e
          → All NeverExpires b.db.user_tokens
          → Returns
              (issue_token crypto user.id (trim_space creds.device_id) device_name)
              e
              result
              b'
          → Registered b b' result
    Registered-steps b c d e b' result user salt hash valid same made created spared never h =
        let name = login_name crypto creds in
        let (answer', inserted') =
          create_user-Returns name (trim_space creds.display_name) hash c created in
        let answer =
          rw (trim_space_of_valid name valid, trim_space_idem creds.display_name) at answer' in
        let inserted =
          rw (trim_space_of_valid name valid, trim_space_idem creds.display_name) at inserted' in
        let (free, row, after) =
          insert_user-done name (trim_space creds.display_name) hash c.db_now c.db answer in
        let db : e.db ≡ record c.db { users = c.db.users ++ user ∷ []; drawn = c.db.drawn + 1 } =
          spared.0 ∙ ap (λ (x : Backend). x.db) inserted ∙ after in
        let never' =
          subst (All NeverExpires)
            (sym (
              ap (λ (x : Database). x.user_tokens) db
              ∙ ap (λ (x : Database). x.user_tokens) same.0))
            never in
        let (issued, given) = issue_token-Returns crypto user.id _ _ e never' h in
        record {
          user = user;
          valid = valid;
          free = subst (λ (x : Database). exists (user_has_name name) x.users ≡ false) same.0 free;
          users =
              issued.users
              ∙ ap (λ (x : Database). x.users) db
              ∙ ap (λ (x : Database). x.users ++ user ∷ []) same.0;
          deletions =
              issued.deletions
              ∙ ap (λ (x : Database). x.pending_account_deletions) db
              ∙ ap (λ (x : Database). x.pending_account_deletions) same.0;
          username = ap (λ (u : User). u.username) row;
          display_name = ap (λ (u : User). u.display_name) row;
          salt = salt;
          password_hash = ap (λ (u : User). u.password_hash) row ∙ made;
          user_id = ap (λ (r : AuthResult). r.user_id) given;
          issued =
              subst
                (λ t.
                  Issued (trim_space user.id) (hash_token crypto result.session_token)
                    (trim_space (trim_space creds.device_id))
                    (trim_space (trim_space creds.device_name)) t b'.db.user_tokens)
                (spared.1 ∙ ap (λ (x : Backend). x.db_now) inserted ∙ same.1) issued.issued;
        }

    -- If no token has a date on which it expires, a successful registration has added exactly one
    -- user, whose normalised name is valid and was free, with the trimmed display name and a hash
    -- of the password with some salt; the result names that user, and its session token is the
    -- text of an active token of the user on the device; pending deletions are as before.
    pub register-Registered :
        (b b' : Backend) (result : AuthResult)
        → All NeverExpires b.db.user_tokens
        → Returns (register crypto creds) b result b'
        → Registered b b' result
    unfolding register
    register-Registered b b' result never h =
        let name = login_name crypto creds in
        let (ready, h1) = default_deps->>=-Returns _ h in
        let (checked, h2) = refuse_if->>-Returns _ _ _ h1 in
        let (given, h3) = refuse_if->>-Returns _ _ _ h2 in
        let (device, h4) = refuse_if->>-Returns _ _ _ h3 in
        let (u, cached, h5) = >>=-Returns _ _ h4 in
        let spared = reject_if_cached-Spares b.redis_ready name b in
        let b1 = (reject_if_cached b.redis_ready name b).1 in
        let (available, asked, h6) = >>=-Returns _ _ h5 in
        let (is_free, still) = is_username_available-Returns name b1 asked in
        let (took, h7) = refuse_if->>-Returns _ _ _ h6 in
        let (hash, hashed, h8) = >>=-Returns _ _ h7 in
        let (salt, made, drew) = hash_password-Returns creds.password _ hashed in
        let (user, created, h9) = >>=-Returns _ _ h8 in
        let (v, cached', h10) = >>=-Returns _ _ h9 in
        let valid : valid_username name ≡ true = ground arith in
        let b2 = (is_username_available name b1).1 in
        let b3 = (hash_password crypto creds.password b2).1 in
        let b4 = (create_user name (trim_space creds.display_name) hash b3).1 in
        let b5 = (cache_username b.redis_ready name user.id b4).1 in
        let asked_same : SameTables b1 b2 =
          (ap (λ (x : Backend). x.db) still, ap (λ (x : Backend). x.db_now) still) in
        let drawn_same : SameTables b2 b3 =
          (ap (λ (x : Backend). x.db) drew, ap (λ (x : Backend). x.db_now) drew) in
        Registered-steps b b3 b4 b5 b' result user salt hash valid
          (SameTables-trans b b1 b3 spared (SameTables-trans b1 b2 b3 asked_same drawn_same)) made
          created (cache_username-Spares b.redis_ready name user.id b4) never h10
