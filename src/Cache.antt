-- ===== src/Cache.antt =====
-- cache/username.go: the names of users in Redis.
pub mod Tables
use Prim.Native.String.{String}
use ppgram.Prelude.{
  Bool, true, false, not, List, [], ◌∷◌, ◌++◌, Option, none, some, GoString, codes, is_empty,
}
use ppgram.Prelude.Maps.{lookup, insert, remove}
use ppgram.Text.{trim_space}
use ppgram.Errors.{
  Result, ok, err, Error, cache_missing_required_fields, redis_failure,
  default_redis_not_initialized,
}
use ppgram.Backend.{Backend, Fault, fine, lost_request, lost_reply, Exec, refuse_if, ◌>>=◌, ◌>>◌}

abbrev pub Redis : Type 0
Redis = List (GoString × GoString)

module _ {ℓ} {A : Type ℓ} where
  -- A command of the Redis client, with its effect on the keys.
  unfoldable pub call_with : List Fault → (Redis → A × Redis) → Exec A
  call_with [] f b = let (a, redis) = f b.redis in (ok a, record b { redis = redis })
  call_with (fine ∷ rest) f b =
      let (a, redis) = f b.redis in (ok a, record b { redis = redis; faults = rest })
  call_with (lost_request ∷ rest) f b = (err redis_failure, record b { faults = rest })
  call_with (lost_reply ∷ rest) f b =
      let (a, redis) = f b.redis in (err redis_failure, record b { redis = redis; faults = rest })

  unfoldable pub redis_call : (Redis → A × Redis) → Exec A
  unfolding call_with
  redis_call f b = call_with b.faults f b

unfoldable pub username_key : GoString → GoString
username_key username = codes "username:" ++ username

-- `c == nil || c.client == nil`
unfoldable pub require_client : Exec (Unit {0})
require_client b = refuse_if (not b.redis_ready) default_redis_not_initialized b

abbrev pub require_cache_field : GoString → String → Exec (Unit {0})
require_cache_field value field =
    refuse_if (is_empty value) (cache_missing_required_fields (codes field))

abbrev pub is_set {ℓ} : {A : Type ℓ} → Option A → Bool
is_set none = false
is_set (some a) = true

-- `UsernameExists` of the cache
unfoldable pub cached_username_exists : GoString → Exec Bool
cached_username_exists username =
    let name = trim_space username in
    do
      require_client
      require_cache_field name "username"
      redis_call (λ redis. (is_set (lookup (username_key name) redis), redis))

unfoldable pub set_username : GoString → GoString → Exec (Unit {0})
set_username username user_id =
    let name = trim_space username in
    let id = trim_space user_id in
    do
      require_client
      require_cache_field name "username"
      require_cache_field id "user_id"
      redis_call (λ redis. (tt, insert (username_key name) id redis))

unfoldable pub remove_username : GoString → Exec (Unit {0})
remove_username username =
    let name = trim_space username in
    do
      require_client
      require_cache_field name "username"
      redis_call (λ redis. (tt, remove (username_key name) redis))
