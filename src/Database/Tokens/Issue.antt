-- ===== src/Database/Tokens/Issue.antt =====
-- What is found by its hash after a token was issued or rotated.
use ppgram.Prelude.{
  ℕ, Bool, true, false, not, ◌&&◌, ◌≡◌, refl, List, [], ◌∷◌, ◌++◌, none, some, GoString, str_eq_iff,
  str_eq_refl, arith, All, Bool-cases, inl, inr,
}
use ppgram.Table.{find, update, exists}
use ppgram.Table.Rows.{find-append_new}
use ppgram.Database.{Time, UserToken, Database, done, token_has_hash, token_has_device, user_has_id}
use ppgram.Database.Tokens.{is_active, reissue, token_row, upsert_token}

-- No token has a date on which it expires.
abbrev pub NeverExpires : UserToken → Type 0
NeverExpires t = t.expires_at ≡ none

-- The condition of `GetActiveByTokenHash`.
abbrev pub active_with : List ℕ → Time → UserToken → Bool
active_with hash now t = token_has_hash hash t && is_active now t

module _ (user_id : GoString) (hash : List ℕ) (device_id device_name : GoString) (now : Time) where
  -- A token of the user on the device, which `GetActiveByTokenHash` finds by the hash.
  pub record Issued (rows : List UserToken) : Type 0 where
    pub token : UserToken
    pub found : find (active_with hash now) rows ≡ some token
    pub user : token.user_id ≡ user_id
    pub device : token.device_id ≡ device_id
    pub name : token.device_name ≡ device_name

  abbrev elsewhere : UserToken → Bool
  elsewhere t = token_has_hash hash t && not (token_has_device device_id t)

  reissue-active :
      (t : UserToken)
      → NeverExpires t
      → active_with hash now (reissue user_id hash device_name now t) ≡ true
  unfolding is_active
  reissue-active t h = rw (h, str_eq_refl hash)

  update-Issued :
      (rows : List UserToken)
      → All NeverExpires rows
      → exists elsewhere rows ≡ false
      → exists (token_has_device device_id) rows ≡ true
      → Issued (update (token_has_device device_id) (reissue user_id hash device_name now) rows)
  unfolding update exists find
  update-Issued [] h new there = cc
  update-Issued (t ∷ rows) h new there = elim (Bool-cases (token_has_device device_id t)) [
    | inl here ↦ record {
      token = reissue user_id hash device_name now t;
      found = rw (here, reissue-active t h.0);
      user = refl;
      device = (str_eq_iff t.device_id device_id).0 here;
      name = refl;
    }
    | inr other ↦
        let later = update-Issued rows h.1 (ground arith) (ground arith) in
        let no_hash : token_has_hash hash t ≡ false = ground arith in
        record {
          token = later.token;
          found = rw (other, no_hash) later.found;
          user = later.user;
          device = later.device;
          name = later.name;
        }
  ]

  none_active :
      (rows : List UserToken)
      → exists elsewhere rows ≡ false
      → exists (token_has_device device_id) rows ≡ false
      → exists (active_with hash now) rows ≡ false
  unfolding exists
  none_active [] new absent = refl
  none_active (t ∷ rows) new absent = ground (arith, none_active rows)

  token_row-active :
      (db : Database)
      → active_with hash now (token_row user_id hash device_id device_name now db) ≡ true
  unfolding is_active
  token_row-active db = rw (str_eq_refl hash)

  insert-Issued :
      (rows : List UserToken) (db : Database)
      → exists elsewhere rows ≡ false
      → exists (token_has_device device_id) rows ≡ false
      → Issued (rows ++ token_row user_id hash device_id device_name now db ∷ [])
  insert-Issued rows db new absent = record {
    token = token_row user_id hash device_id device_name now db;
    found =
        find-append_new (active_with hash now) rows
          (token_row user_id hash device_id device_name now db) (none_active rows new absent)
          (token_row-active db);
    user = refl;
    device = refl;
    name = refl;
  }

  -- After a successful upsert the token is active, and belongs to the user and the device; the other
  -- tables are as before.
  pub upsert_token-Issued :
      (db : Database)
      → All NeverExpires db.user_tokens
      → (upsert_token user_id hash device_id device_name now db).0 ≡ done tt
      → Issued (upsert_token user_id hash device_id device_name now db).1.user_tokens
        × ((upsert_token user_id hash device_id device_name now db).1.users ≡ db.users)
        × ((upsert_token user_id hash device_id device_name now db).1.pending_account_deletions
            ≡ db.pending_account_deletions)
  unfolding upsert_token
  upsert_token-Issued db never h = elim (Bool-cases (exists elsewhere db.user_tokens)) [
    | inl clash ↦ cc (rw clash at h)
    | inr new ↦ elim (Bool-cases (not (exists (user_has_id user_id) db.users))) [
      | inl no_user ↦ cc (rw (new, no_user) at h)
      | inr a_user ↦ elim (Bool-cases (exists (token_has_device device_id) db.user_tokens)) [
        | inl there ↦
            rw (new, a_user, there) (update-Issued db.user_tokens never new there, refl, refl)
        | inr absent ↦
            rw (new, a_user, absent) (insert-Issued db.user_tokens db new absent, refl, refl)
      ]
    ]
  ]
