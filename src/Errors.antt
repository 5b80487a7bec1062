-- ===== src/Errors.antt =====
-- The error values of the server, and the tests `errors.Is` on them. An error that wraps another,
-- fmt.Errorf("...: %w", err), keeps what the tests can see of it.
use ppgram.Prelude.{Bool, true, false, GoString}

pub data Error : Type 0 where
  default_db_not_initialized : Error
  -- database.ErrMissingRequiredFields and cache.ErrMissingRequiredFields, with the field's name
  db_missing_required_fields : GoString → Error
  cache_missing_required_fields : GoString → Error
  user_not_found username_taken user_token_not_found : Error
  -- what the database driver and the Redis client report
  db_failure redis_failure : Error
  default_redis_not_initialized : Error
  invalid_username invalid_credentials invalid_token : Error
  account_pending_deletion account_deletion_in_progress : Error
  password_required device_id_required session_token_needed : Error
  -- crypto/rand reports an error
  random_failure : Error
  -- a password hash that cannot be read
  bad_password_hash : Error

-- A function's pair of a value and an error.
pub data Result {ℓ} (A : Type ℓ) : Type ℓ where
  ok : A → Result A
  err : Error → Result A

unfoldable pub is_user_not_found : Error → Bool
is_user_not_found user_not_found = true
is_user_not_found _ = false

unfoldable pub is_user_token_not_found : Error → Bool
is_user_token_not_found user_token_not_found = true
is_user_token_not_found _ = false
