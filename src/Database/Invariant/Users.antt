-- ===== src/Database/Invariant/Users.antt =====
-- The statements on `users` of database/users.go and the consistency of the tables.
use ppgram.Prelude.{
  true, false, not, ◌||◌, ◌≡◌, List, [], ◌∷◌, ◌++◌, GoString, ◌=s=◌, ◌==◌, ==_iff, str_eq_iff,
  arith, All-append, Bool-cases, inl, inr,
}
use ppgram.Table.{select, exists}
use ppgram.Table.Keys.{Distinct-append, Distinct-select}
use ppgram.Table.Rows.{exists-append_left, exists-select, All-imp, All-select, All-select_imp}
use ppgram.Username.{valid_username}
use ppgram.Database.{
  Time, User, UserToken, PendingAccountDeletion, Database, user_has_id, user_has_name,
}
use ppgram.Database.Users.{user_row, insert_user, drop_user}
use ppgram.Database.Tokens.Issue.{NeverExpires}
use ppgram.Database.Invariant.{IsConsistent, HasValidName}

-- One more row, with a new id, a new name and a valid one.
added :
    (db : Database) (user : User) (n : _)
    → IsConsistent db
    → HasValidName user
    → exists (user_has_id user.id) db.users ≡ false
    → exists (user_has_name user.username) db.users ≡ false
    → IsConsistent (record db { users = db.users ++ user ∷ []; drawn = n })
added db user n h valid new_id new_name = record {
  user_ids = Distinct-append ◌=s=◌ str_eq_iff (λ (u : User). u.id) db.users user h.user_ids new_id;
  usernames =
      Distinct-append ◌=s=◌ str_eq_iff (λ (u : User). u.username) db.users user h.usernames
        new_name;
  valid_names = All-append HasValidName db.users (user ∷ []) h.valid_names (valid, tt);
  token_ids = h.token_ids;
  token_ids_used = h.token_ids_used;
  token_hashes = h.token_hashes;
  token_devices = h.token_devices;
  token_users =
      All-imp _ _ db.user_tokens (λ t. exists-append_left (user_has_id t.user_id) db.users user)
        h.token_users;
  never_expires = h.never_expires;
  deletion_ids = h.deletion_ids;
  deletion_users =
      All-imp _ _ db.pending_account_deletions
        (λ d. exists-append_left (user_has_id d.user_id) db.users user) h.deletion_users;
}

pub insert_user-IsConsistent :
    (username display_name password_hash : GoString) (now : Time) (db : Database)
    → valid_username username ≡ true
    → IsConsistent db
    → IsConsistent (insert_user username display_name password_hash now db).1
unfolding insert_user
insert_user-IsConsistent username display_name password_hash now db valid h =
    let id = db.uuids db.drawn in
    elim (Bool-cases
      (exists (user_has_id id) db.users || exists (user_has_name username) db.users)) [
        | inl taken ↦ rw taken (record {
          user_ids = h.user_ids;
          usernames = h.usernames;
          valid_names = h.valid_names;
          token_ids = h.token_ids;
          token_ids_used = h.token_ids_used;
          token_hashes = h.token_hashes;
          token_devices = h.token_devices;
          token_users = h.token_users;
          never_expires = h.never_expires;
          deletion_ids = h.deletion_ids;
          deletion_users = h.deletion_users;
        })
        | inr free ↦ rw free (
            added db (user_row username display_name password_hash now db) _ h valid (ground arith)
              (ground arith))
      ]

-- A user that stays is there still.
stays :
    (id other : GoString) (users : List User)
    → (other =s= id) ≡ false
    → exists (user_has_id other) users ≡ true
    → exists (user_has_id other) (select (λ u. not (user_has_id id u)) users) ≡ true
stays id other users ne there =
    rw
      (exists-select (user_has_id other) (λ u. not (user_has_id id u)) users
        (λ u e. ground (arith, str_eq_iff u.id other, str_eq_iff u.id id, str_eq_iff other id)))
      there

-- Deleting a user takes the user's tokens and pending deletion along.
pub drop_user-IsConsistent :
    (user_id : GoString) (db : Database) → IsConsistent db → IsConsistent (drop_user user_id db)
unfolding drop_user
drop_user-IsConsistent id db h = record {
  user_ids = Distinct-select ◌=s=◌ str_eq_iff (λ (u : User). u.id) _ db.users h.user_ids;
  usernames = Distinct-select ◌=s=◌ str_eq_iff (λ (u : User). u.username) _ db.users h.usernames;
  valid_names = All-select HasValidName _ db.users h.valid_names;
  token_ids =
      Distinct-select ◌==◌ ==_iff (λ (t : UserToken). t.token_id) _ db.user_tokens h.token_ids;
  token_ids_used = All-select _ _ db.user_tokens h.token_ids_used;
  token_hashes =
      Distinct-select ◌=s=◌ str_eq_iff (λ (t : UserToken). t.token_hash) _ db.user_tokens
        h.token_hashes;
  token_devices =
      Distinct-select ◌=s=◌ str_eq_iff (λ (t : UserToken). t.device_id) _ db.user_tokens
        h.token_devices;
  token_users =
      All-select_imp _ _ _ db.user_tokens (λ t kept. stays id t.user_id db.users (ground arith))
        h.token_users;
  never_expires = All-select NeverExpires _ db.user_tokens h.never_expires;
  deletion_ids =
      Distinct-select ◌=s=◌ str_eq_iff (λ (d : PendingAccountDeletion). d.user_id) _
        db.pending_account_deletions h.deletion_ids;
  deletion_users =
      All-select_imp _ _ _ db.pending_account_deletions
        (λ d kept. stays id d.user_id db.users (ground arith)) h.deletion_users;
}
