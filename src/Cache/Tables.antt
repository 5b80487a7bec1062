-- ===== src/Cache/Tables.antt =====
-- The commands of cache/username.go and the tables.
use ppgram.Prelude.{Bool, true, false, List, [], ◌∷◌, GoString, ◌≡◌, refl, ◌∙◌}
use ppgram.Errors.{Error}
use ppgram.Backend.{
  Backend, Fault, fine, lost_request, lost_reply, Exec, pure, refuse_if, handle, ◌>>=◌,
}
use ppgram.Backend.Within.{Within, >>=-Within, handle-Within}
use ppgram.Cache.{
  Redis, call_with, redis_call, require_client, cached_username_exists, set_username,
  remove_username,
}

-- The same tables at the same time of the database.
abbrev pub SameTables : Backend → Backend → Type 0
SameTables b b' = (b'.db ≡ b.db) × (b'.db_now ≡ b.db_now)

pub SameTables-trans : (a b c : Backend) → SameTables a b → SameTables b c → SameTables a c
SameTables-trans a b c h k = (k.0 ∙ h.0, k.1 ∙ h.1)

-- A command after which this is so from wherever it starts.
abbrev pub Spares {ℓ} : {A : Type ℓ} → Exec A → Type 0
Spares m = Within SameTables m

module _ {ℓ κ} {A : Type ℓ} {B : Type κ} where
  pub >>=-Spares :
      (m : Exec A) (f : A → Exec B) → Spares m → ((a : A) → Spares (f a)) → Spares (m >>= f)
  >>=-Spares = >>=-Within SameTables SameTables-trans

  pub handle-Spares :
      (m : Exec A) (on_error : Error → Exec B) (f : A → Exec B)
      → Spares m
      → ((e : Error) → Spares (on_error e))
      → ((a : A) → Spares (f a))
      → Spares (handle m on_error f)
  handle-Spares = handle-Within SameTables SameTables-trans

module _ {ℓ} {A : Type ℓ} where
  pub pure-Spares : (a : A) → Spares (pure a)
  unfolding pure
  pure-Spares a b = (refl, refl)

  call_with-SameTables :
      (faults : List Fault) (f : Redis → A × Redis) (b : Backend)
      → SameTables b (call_with faults f b).1
  unfolding call_with
  call_with-SameTables [] f b = (refl, refl)
  call_with-SameTables (fine ∷ rest) f b = (refl, refl)
  call_with-SameTables (lost_request ∷ rest) f b = (refl, refl)
  call_with-SameTables (lost_reply ∷ rest) f b = (refl, refl)

  redis_call-Spares : (f : Redis → A × Redis) → Spares (redis_call f)
  unfolding redis_call
  redis_call-Spares f b = call_with-SameTables b.faults f b

pub refuse_if-Spares : (t : Bool) (e : Error) → Spares (refuse_if t e)
unfolding refuse_if
refuse_if-Spares true e b = (refl, refl)
refuse_if-Spares false e b = (refl, refl)

require_client-Spares : Spares require_client
unfolding require_client
require_client-Spares b = refuse_if-Spares _ _ b

pub cached_username_exists-Spares : (username : GoString) → Spares (cached_username_exists username)
unfolding cached_username_exists
cached_username_exists-Spares username =
    >>=-Spares _ _ require_client-Spares
      λ _. >>=-Spares _ _ (refuse_if-Spares _ _) λ _. redis_call-Spares _

pub set_username-Spares : (username user_id : GoString) → Spares (set_username username user_id)
unfolding set_username
set_username-Spares username user_id = >>=-Spares _ _ require_client-Spares λ _.
    >>=-Spares _ _ (refuse_if-Spares _ _)
      λ _. >>=-Spares _ _ (refuse_if-Spares _ _) λ _. redis_call-Spares _

pub remove_username-Spares : (username : GoString) → Spares (remove_username username)
unfolding remove_username
remove_username-Spares username =
    >>=-Spares _ _ require_client-Spares
      λ _. >>=-Spares _ _ (refuse_if-Spares _ _) λ _. redis_call-Spares _
