-- ===== src/Auth.antt =====
-- server/auth/auth.go: registration and the two logins.
pub mod Steps
pub mod Login
pub mod Refusals
pub mod TokenLogin
pub mod TokenRefusals
pub mod Race
pub mod Register
pub mod Samples
mod Tests
use ppgram.Prelude.{
  ℕ, Bool, true, false, not, ◌||◌, List, Option, none, some, GoString, codes, is_empty,
  if◌then◌else◌,
}
use ppgram.Text.{trim_space}
use ppgram.Username.{normalize_username, valid_username}
use ppgram.Errors.{
  Error, Result, ok, err, default_db_not_initialized, invalid_username, invalid_credentials,
  invalid_token, account_pending_deletion, password_required, device_id_required,
  session_token_needed, username_taken, is_user_not_found, is_user_token_not_found,
}
use ppgram.Database.{User, UserToken}
use ppgram.Backend.{Backend, Exec, pure, raise, refuse_if, handle, ◌>>=◌, ◌>>◌}
use ppgram.Repository.{
  create_user, get_user_by_username, is_username_available, upsert_active_token,
  get_active_by_token_hash, rotate_user_token, exists_active_by_user_id,
}
use ppgram.Cache.{cached_username_exists, set_username}
use ppgram.Password.{
  Crypto, hash_password, verify_password, hash_token, generate_session_token_pair,
}

pub record AuthCredentials : Type 0 where
  pub username : GoString
  pub display_name : GoString
  pub password : GoString
  pub device_id : GoString
  pub device_name : GoString

pub record AuthResult : Type 0 where
  pub user_id : GoString
  pub device_id : GoString
  pub device_name : GoString
  pub session_token : GoString

-- `defaultDeps`, with whether there is a Redis client.
unfoldable pub default_deps : Exec Bool
default_deps b = if b.db_ready then (ok b.redis_ready, b) else (err default_db_not_initialized, b)

unfoldable pub reject_if_pending_deletion : GoString → Exec (Unit {0})
reject_if_pending_deletion user_id = do
  pending ← exists_active_by_user_id user_id
  refuse_if pending account_pending_deletion

-- `if redis != nil` around the first look at the name.
unfoldable pub reject_if_cached : Bool → GoString → Exec (Unit {0})
reject_if_cached false name = pure tt
reject_if_cached true name = do
  exists ← cached_username_exists name
  refuse_if exists username_taken

-- `if redis != nil { _ = redis.SetUsername(…) }`
unfoldable pub cache_username : Bool → GoString → GoString → Exec (Unit {0})
cache_username false name user_id = pure tt
cache_username true name user_id = handle (set_username name user_id) (λ _. pure tt) pure

-- A new token for the device, as both `Register` and `LoginByCredentials` end.
unfoldable pub issue_token : Crypto → GoString → GoString → GoString → Exec AuthResult
issue_token crypto user_id device_id device_name = do
  (session_token, session_token_hash) ← generate_session_token_pair crypto
  upsert_active_token user_id device_id device_name session_token_hash
  pure (record {
    user_id = user_id;
    device_id = device_id;
    device_name = device_name;
    session_token = session_token;
  })

unfoldable pub register : Crypto → AuthCredentials → Exec AuthResult
register crypto creds =
    let normalized = normalize_username crypto.lower_high creds.username in
    let device_id = trim_space creds.device_id in
    do
      redis ← default_deps
      refuse_if (not (valid_username normalized)) invalid_username
      refuse_if (is_empty (trim_space creds.password)) password_required
      refuse_if (is_empty device_id) device_id_required
      reject_if_cached redis normalized
      available ← is_username_available normalized
      refuse_if (not available) username_taken
      password_hash ← hash_password crypto creds.password
      user ← create_user normalized (trim_space creds.display_name) password_hash
      cache_username redis normalized user.id
      issue_token crypto user.id device_id (trim_space creds.device_name)

-- `if errors.Is(err, db.ErrUserNotFound) { return nil, ErrInvalidCredentials }; return nil, err`
unfoldable pub hide_not_found {ℓ} : {A : Type ℓ} → Error → Exec A
hide_not_found e = if is_user_not_found e then raise invalid_credentials else raise e

-- `ok, err := verifyPassword(…); if err != nil || !ok`
unfoldable pub check_password : Result Bool → Exec (Unit {0})
check_password (ok true) = pure tt
check_password (ok false) = raise invalid_credentials
check_password (err e) = raise invalid_credentials

unfoldable pub login_by_credentials : Crypto → AuthCredentials → Exec AuthResult
login_by_credentials crypto creds =
    let normalized = normalize_username crypto.lower_high creds.username in
    let device_id = trim_space creds.device_id in
    do
      default_deps
      refuse_if (not (valid_username normalized)) invalid_credentials
      refuse_if (is_empty (trim_space creds.password)) invalid_credentials
      refuse_if (is_empty device_id) device_id_required
      user ← handle (get_user_by_username normalized) hide_not_found pure
      check_password (verify_password crypto creds.password user.password_hash)
      reject_if_pending_deletion user.id
      issue_token crypto user.id device_id (trim_space creds.device_name)

-- `if errors.Is(err, db.ErrUserTokenNotFound) { return nil, ErrInvalidToken }; return nil, err`
unfoldable pub hide_no_token {ℓ} : {A : Type ℓ} → Error → Exec A
hide_no_token e = if is_user_token_not_found e then raise invalid_token else raise e

unfoldable pub login_by_token : Crypto → GoString → Exec AuthResult
login_by_token crypto session_token =
    let token = trim_space session_token in
    do
      default_deps
      refuse_if (is_empty token) session_token_needed
      stored_token ← handle (get_active_by_token_hash (hash_token crypto token)) hide_no_token pure
      reject_if_pending_deletion stored_token.user_id
      (new_token, new_token_hash) ← generate_session_token_pair crypto
      handle (rotate_user_token stored_token.token_id new_token_hash) hide_no_token pure
      pure (record {
        user_id = stored_token.user_id;
        device_id = stored_token.device_id;
        device_name = stored_token.device_name;
        session_token = new_token;
      })
