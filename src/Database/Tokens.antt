-- ===== src/Database/Tokens.antt =====
-- The statements of database/user_tokens.go.
pub mod Issue
pub mod Rotate
use ppgram.Prelude.{
  ℕ, ◌+◌, Bool, true, false, not, ◌&&◌, ◌||◌, List, [], ◌∷◌, ◌++◌, Option, none, some, GoString,
  ◌==◌, ltb, if◌then◌else◌,
}
use ppgram.Table.{find, update, exists}
use ppgram.Database.{
  Time, UserToken, Database, Outcome, done, unique_violation, failed, Statement, user_has_id,
  token_has_hash, token_has_device, is_null,
}

abbrev pub token_has_id : ℕ → UserToken → Bool
token_has_id id t = t.token_id == id

-- The row of an INSERT, with the columns' defaults.
abbrev pub token_row : GoString → List ℕ → GoString → GoString → Time → Database → UserToken
token_row user_id token_hash device_id device_name now db = record {
  token_id = db.next_token_id;
  user_id = user_id;
  token_hash = token_hash;
  device_id = device_id;
  device_name = device_name;
  issued_at = now;
  last_used_at = now;
  expires_at = none;
  revoked_at = none;
}

-- ON CONFLICT (device_id) DO UPDATE SET …
abbrev pub reissue : GoString → List ℕ → GoString → Time → UserToken → UserToken
reissue user_id token_hash device_name now t = record t {
  user_id = user_id;
  token_hash = token_hash;
  device_name = device_name;
  last_used_at = now;
  issued_at = now;
  revoked_at = none;
}

abbrev pub take_token_id : Database → Database
take_token_id db = record db { next_token_id = db.next_token_id + 1 }

-- INSERT INTO user_tokens … ON CONFLICT (device_id) DO UPDATE. The unique index on `token_hash` and
-- the reference to `users` can refuse the row; the sequence is not set back.
unfoldable pub upsert_token : GoString → List ℕ → GoString → GoString → Statement (Unit {0})
upsert_token user_id token_hash device_id device_name now db =
    if exists (λ t. token_has_hash token_hash t && not (token_has_device device_id t))
      db.user_tokens
    then (unique_violation, take_token_id db)
    else if not (exists (user_has_id user_id) db.users)
    then (failed, take_token_id db)
    else if exists (token_has_device device_id) db.user_tokens
    then (
      done tt,
      record (take_token_id db) {
        user_tokens =
            update (token_has_device device_id) (reissue user_id token_hash device_name now)
              db.user_tokens;
      },
    )
    else (
      done tt,
      record (take_token_id db) {
        user_tokens =
            db.user_tokens ++ token_row user_id token_hash device_id device_name now db ∷ [];
      },
    )

-- expires_at IS NULL OR expires_at > now()
abbrev pub not_expired : Time → Option Time → Bool
not_expired now none = true
not_expired now (some expires_at) = ltb now expires_at

unfoldable pub is_active : Time → UserToken → Bool
is_active now t = is_null t.revoked_at && not_expired now t.expires_at

-- SELECT … FROM user_tokens WHERE token_hash = $1 AND …
unfoldable pub select_active_token : List ℕ → Statement (Option UserToken)
select_active_token token_hash now db =
    (done (find (λ t. token_has_hash token_hash t && is_active now t) db.user_tokens), db)

abbrev pub rotate : List ℕ → Time → UserToken → UserToken
rotate new_token_hash now t = record t { token_hash = new_token_hash; last_used_at = now }

-- UPDATE user_tokens SET token_hash = $2, … WHERE token_id = $1, with whether there is such a row.
unfoldable pub rotate_token : ℕ → List ℕ → Statement Bool
rotate_token token_id new_token_hash now db =
    if exists (token_has_id token_id) db.user_tokens
    then (if exists (λ t. token_has_hash new_token_hash t && not (token_has_id token_id t))
          db.user_tokens
        then (unique_violation, db)
        else (
          done true,
          record db {
            user_tokens = update (token_has_id token_id) (rotate new_token_hash now) db.user_tokens;
          },
        ))
    else (done false, db)
