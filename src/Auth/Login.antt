-- ===== src/Auth/Login.antt =====
-- `LoginByCredentials` of server/auth/auth.go: a successful login.
use ppgram.Prelude.{true, false, some, GoString, ◌≡◌, ap, subst, All, arith}
use ppgram.Text.{trim_space}
use ppgram.Username.{normalize_username, valid_username}
use ppgram.Username.Normal.{trim_space_of_valid}
use ppgram.Table.{find, exists}
use ppgram.Errors.{ok}
use ppgram.Database.{User, user_has_name, deletion_of}
use ppgram.Database.Tokens.Issue.{NeverExpires}
use ppgram.Backend.{Backend}
use ppgram.Backend.Returns.{Returns, >>=-Returns}
use ppgram.Repository.Returns.{Untouched-trans, refuse_if->>-Returns}
use ppgram.Password.{Crypto, verify_password, hash_token}
use ppgram.Auth.{AuthCredentials, AuthResult, login_by_credentials}
use ppgram.Auth.Steps.{
  IssuedIn, IssuedIn-Untouched, default_deps->>=-Returns, found_user-Returns,
  check_password->>-Returns, reject_if_pending_deletion-Returns, issue_token-Returns,
}

module _ (crypto : Crypto) (creds : AuthCredentials) where
  abbrev pub login_name : GoString
  login_name = normalize_username crypto.lower_high creds.username

  -- What a login with the credentials finds and leaves behind.
  pub record LoggedIn (b b' : Backend) (result : AuthResult) : Type 0 where
    pub user : User
    pub found : find (user_has_name login_name) b.db.users ≡ some user
    pub password : verify_password crypto creds.password user.password_hash ≡ ok true
    pub not_pending :
        exists (deletion_of (trim_space user.id)) b.db.pending_account_deletions ≡ false
    pub user_id : result.user_id ≡ user.id
    pub device_id : result.device_id ≡ trim_space creds.device_id
    pub issued :
        IssuedIn user.id
          (hash_token crypto result.session_token)
          (trim_space creds.device_id)
          (trim_space creds.device_name)
          b
          b'

  -- If no token has a date on which it expires, a successful login by credentials has found a
  -- user by the normalised name, verified the password against its hash and seen no pending
  -- deletion; the result names that user and the trimmed device, its session token is the text of
  -- an active token of them, and users and pending deletions are as before.
  pub login_by_credentials-LoggedIn :
      (b b' : Backend) (result : AuthResult)
      → All NeverExpires b.db.user_tokens
      → Returns (login_by_credentials crypto creds) b result b'
      → LoggedIn b b' result
  unfolding login_by_credentials
  login_by_credentials-LoggedIn b b' result never h =
      let (ready, h1) = default_deps->>=-Returns _ h in
      let (checked, h2) = refuse_if->>-Returns _ _ _ h1 in
      let (given, h3) = refuse_if->>-Returns _ _ _ h2 in
      let (device, h4) = refuse_if->>-Returns _ _ _ h3 in
      let (user, asked, h5) = >>=-Returns _ _ h4 in
      let (found, still) = found_user-Returns login_name b asked in
      let (right, h6) = check_password->>-Returns _ _ h5 in
      let (u, pending, h7) = >>=-Returns _ _ h6 in
      let (not_pending, still') = reject_if_pending_deletion-Returns user.id _ pending in
      let valid : valid_username login_name ≡ true = ground arith in
      let (issued, made) = issue_token-Returns crypto _ _ _ _ (rw (still', still) never) h7 in
      record {
        user = user;
        found =
            subst (λ s. find (user_has_name s) b.db.users ≡ some user)
              (trim_space_of_valid login_name valid) found;
        password = right;
        not_pending = rw still at not_pending;
        user_id = ap (λ (r : AuthResult). r.user_id) made;
        device_id = ap (λ (r : AuthResult). r.device_id) made;
        issued = IssuedIn-Untouched _ _ _ _ b _ b' (Untouched-trans b _ _ still still') issued;
      }
