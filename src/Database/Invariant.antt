-- ===== src/Database/Invariant.antt =====
-- The consistency of the tables of database/*.go.
pub mod Users
pub mod Tokens
pub mod Deletions
use ppgram.Prelude.{ℕ, ◌<◌, ◌≡◌, true, GoString, ◌==◌, ◌=s=◌, All}
use ppgram.Table.{exists}
use ppgram.Table.Keys.{Distinct}
use ppgram.Username.{valid_username}
use ppgram.Database.{User, UserToken, PendingAccountDeletion, Database, user_has_id}
use ppgram.Database.Tokens.Issue.{NeverExpires}

abbrev pub HasValidName : User → Type 0
HasValidName u = valid_username u.username ≡ true

-- The unique indexes, the references to `users`, usernames that `ValidUsername` accepts, and tokens
-- without a date on which they expire.
pub record IsConsistent (db : Database) : Type 0 where
  pub user_ids : Distinct ◌=s=◌ (λ u. u.id) db.users
  pub usernames : Distinct ◌=s=◌ (λ u. u.username) db.users
  pub valid_names : All HasValidName db.users
  pub token_ids : Distinct ◌==◌ (λ t. t.token_id) db.user_tokens
  pub token_ids_used : All (λ t. t.token_id < db.next_token_id) db.user_tokens
  pub token_hashes : Distinct ◌=s=◌ (λ t. t.token_hash) db.user_tokens
  pub token_devices : Distinct ◌=s=◌ (λ t. t.device_id) db.user_tokens
  pub token_users : All (λ t. exists (user_has_id t.user_id) db.users ≡ true) db.user_tokens
  pub never_expires : All NeverExpires db.user_tokens
  pub deletion_ids : Distinct ◌=s=◌ (λ d. d.user_id) db.pending_account_deletions
  pub deletion_users :
      All (λ d. exists (user_has_id d.user_id) db.users ≡ true) db.pending_account_deletions
