-- ===== src/Database/Users.antt =====
-- The statements of database/users.go.
use ppgram.Prelude.{
  ◌+◌, Bool, not, ◌||◌, [], ◌∷◌, ◌++◌, Option, none, some, GoString, if◌then◌else◌,
}
use ppgram.Table.{find, select, exists}
use ppgram.Database.{
  Time, User, Database, done, unique_violation, Statement, user_has_id, user_has_name,
  token_of_user, deletion_of,
}

-- The row of an INSERT, with the columns' defaults.
abbrev pub user_row : GoString → GoString → GoString → Time → Database → User
user_row username display_name password_hash now db = record {
  id = db.uuids db.drawn;
  username = username;
  display_name = display_name;
  password_hash = password_hash;
  created_at = now;
}

-- INSERT INTO users … RETURNING
unfoldable pub insert_user : GoString → GoString → GoString → Statement User
insert_user username display_name password_hash now db =
    let user = user_row username display_name password_hash now db in
    if exists (user_has_id user.id) db.users || exists (user_has_name username) db.users
    then (unique_violation, record db { drawn = db.drawn + 1 })
    else (done user, record db { users = db.users ++ user ∷ []; drawn = db.drawn + 1 })

-- SELECT … FROM users WHERE user_id = $1
unfoldable pub select_user_by_id : GoString → Statement (Option User)
select_user_by_id user_id now db = (done (find (user_has_id user_id) db.users), db)

-- SELECT … FROM users WHERE username = $1
unfoldable pub select_user_by_username : GoString → Statement (Option User)
select_user_by_username username now db = (done (find (user_has_name username) db.users), db)

-- SELECT EXISTS (SELECT 1 FROM users WHERE username = $1)
unfoldable pub username_exists : GoString → Statement Bool
username_exists username now db = (done (exists (user_has_name username) db.users), db)

-- The tables without a user; both other tables refer to users with ON DELETE CASCADE.
unfoldable pub drop_user : GoString → Database → Database
drop_user user_id db = record db {
  users = select (λ u. not (user_has_id user_id u)) db.users;
  user_tokens = select (λ t. not (token_of_user user_id t)) db.user_tokens;
  pending_account_deletions =
      select (λ d. not (deletion_of user_id d)) db.pending_account_deletions;
}

-- The name in the row that DELETE has found.
abbrev pub username_of : Option User → Option GoString
username_of none = none
username_of (some user) = some user.username

-- DELETE FROM users WHERE user_id = $1 RETURNING username
unfoldable pub delete_user : GoString → Statement (Option GoString)
delete_user user_id now db =
    (done (username_of (find (user_has_id user_id) db.users)), drop_user user_id db)
