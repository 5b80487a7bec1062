-- ===== src/Database.antt =====
-- The tables of database/*.go and the SQL statements of its repositories, as PostgreSQL runs them
-- one after the other.
pub mod Users
pub mod Tokens
pub mod Deletions
pub mod Invariant
use ppgram.Prelude.{
  ℕ, ◌+◌, Bool, true, false, not, List, [], ◌∷◌, Option, none, some, GoString, ◌=s=◌,
}

-- An instant, in nanoseconds after Go's zero time, which is the first of January of year 1.
abbrev pub Time : Type 0
Time = ℕ

pub record User : Type 0 where
  pub id : GoString
  pub username : GoString
  pub display_name : GoString
  pub password_hash : GoString
  pub created_at : Time

pub record UserToken : Type 0 where
  pub token_id : ℕ
  pub user_id : GoString
  pub token_hash : List ℕ
  pub device_id : GoString
  pub device_name : GoString
  pub issued_at : Time
  pub last_used_at : Time
  pub expires_at : Option Time
  pub revoked_at : Option Time

pub record PendingAccountDeletion : Type 0 where
  pub user_id : GoString
  pub scheduled_at : Time
  pub delete_at : Time
  pub started_at : Option Time

-- The tables, the sequence behind `token_id`, and the answers to come of `gen_random_uuid()`.
pub record Database : Type 0 where
  pub users : List User
  pub user_tokens : List UserToken
  pub pending_account_deletions : List PendingAccountDeletion
  pub next_token_id : ℕ
  pub uuids : ℕ → GoString
  pub drawn : ℕ

-- What a statement gives: its rows, a violation of a unique index (SQLSTATE 23505), or another
-- error.
pub data Outcome {ℓ} (A : Type ℓ) : Type ℓ where
  done : A → Outcome A
  unique_violation : Outcome A
  failed : Outcome A

-- A statement, run at an instant.
abbrev pub Statement {ℓ} : Type ℓ → Type ℓ
Statement A = Time → Database → Outcome A × Database

abbrev pub user_has_id : GoString → User → Bool
user_has_id id u = u.id =s= id

abbrev pub user_has_name : GoString → User → Bool
user_has_name name u = u.username =s= name

abbrev pub token_of_user : GoString → UserToken → Bool
token_of_user id t = t.user_id =s= id

abbrev pub token_has_hash : List ℕ → UserToken → Bool
token_has_hash hash t = t.token_hash =s= hash

abbrev pub token_has_device : GoString → UserToken → Bool
token_has_device device t = t.device_id =s= device

abbrev pub deletion_of : GoString → PendingAccountDeletion → Bool
deletion_of id d = d.user_id =s= id

-- IS NULL
abbrev pub is_null : Option Time → Bool
is_null none = true
is_null (some t) = false
