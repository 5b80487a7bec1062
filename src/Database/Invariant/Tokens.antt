-- ===== src/Database/Invariant/Tokens.antt =====
-- The statements on `user_tokens` of database/user_tokens.go and the consistency of the tables.
use ppgram.Prelude.{
  ℕ, ◌+◌, ◌<◌, true, false, not, ◌&&◌, ◌≡◌, refl, List, [], ◌∷◌, ◌++◌, GoString, ◌=s=◌, ◌==◌,
  ==_iff, str_eq_iff, arith, All, All-append, Bool-cases, inl, inr,
}
use ppgram.Table.{update, exists}
use ppgram.Table.Keys.{Distinct, Distinct-append, Distinct-update, Distinct-update_one}
use ppgram.Table.Rows.{All-imp, All-update}
use ppgram.Database.{Time, UserToken, Database, user_has_id, token_has_hash, token_has_device}
use ppgram.Database.Tokens.{
  token_has_id, token_row, reissue, rotate, take_token_id, upsert_token, rotate_token,
}
use ppgram.Database.Tokens.Issue.{NeverExpires}
use ppgram.Database.Invariant.{IsConsistent}

-- What the tokens satisfy beside the other tables.
record Tokens (db : Database) (next : ℕ) (rows : List UserToken) : Type 0 where
  token_ids : Distinct ◌==◌ (λ t. t.token_id) rows
  token_ids_used : All (λ t. t.token_id < next) rows
  token_hashes : Distinct ◌=s=◌ (λ t. t.token_hash) rows
  token_devices : Distinct ◌=s=◌ (λ t. t.device_id) rows
  token_users : All (λ t. exists (user_has_id t.user_id) db.users ≡ true) rows
  never_expires : All NeverExpires rows

replace_rows :
    (db : Database) (next : ℕ) (rows : List UserToken)
    → IsConsistent db
    → Tokens db next rows
    → IsConsistent (record db { user_tokens = rows; next_token_id = next })
replace_rows db next rows h k = record {
  user_ids = h.user_ids;
  usernames = h.usernames;
  valid_names = h.valid_names;
  token_ids = k.token_ids;
  token_ids_used = k.token_ids_used;
  token_hashes = k.token_hashes;
  token_devices = k.token_devices;
  token_users = k.token_users;
  never_expires = k.never_expires;
  deletion_ids = h.deletion_ids;
  deletion_users = h.deletion_users;
}

later_ids :
    (db : Database)
    → IsConsistent db
    → All (λ (t : UserToken). t.token_id < db.next_token_id + 1) db.user_tokens
later_ids db h =
    All-imp _ _ db.user_tokens (λ t (k : t.token_id < db.next_token_id). omega arith)
      h.token_ids_used

take_token_id-IsConsistent : (db : Database) → IsConsistent db → IsConsistent (take_token_id db)
take_token_id-IsConsistent db h = replace_rows db (db.next_token_id + 1) db.user_tokens h (record {
  token_ids = h.token_ids;
  token_ids_used = later_ids db h;
  token_hashes = h.token_hashes;
  token_devices = h.token_devices;
  token_users = h.token_users;
  never_expires = h.never_expires;
})

new_id :
    (n : ℕ) (rows : List UserToken)
    → All (λ t. t.token_id < n) rows
    → exists (λ t. t.token_id == n) rows ≡ false
unfolding exists
new_id n [] h = refl
new_id n (t ∷ rows) h = ground (arith, new_id n rows h.1, h.0)

module _ (user_id : GoString) (hash : List ℕ) (device_id device_name : GoString) (now : Time)
    (db : Database) where
  new_hash :
      (rows : List UserToken)
      → exists (λ t. token_has_hash hash t && not (token_has_device device_id t)) rows ≡ false
      → exists (token_has_device device_id) rows ≡ false
      → exists (token_has_hash hash) rows ≡ false
  unfolding exists
  new_hash [] new absent = refl
  new_hash (t ∷ rows) new absent = ground (arith, new_hash rows)

  updated :
      IsConsistent db
      → exists (user_has_id user_id) db.users ≡ true
      → exists (λ t. token_has_hash hash t && not (token_has_device device_id t)) db.user_tokens
        ≡ false
      → Tokens db (db.next_token_id + 1) (
          update (token_has_device device_id) (reissue user_id hash device_name now) db.user_tokens)
  updated h a_user new = record {
    token_ids =
        Distinct-update ◌==◌ ==_iff (λ (t : UserToken). t.token_id) _ _ db.user_tokens (λ t. refl)
          h.token_ids;
    token_ids_used = All-update _ _ _ db.user_tokens (λ t k. k) (later_ids db h);
    token_hashes =
        Distinct-update_one ◌=s=◌ str_eq_iff (λ (t : UserToken). t.token_hash) ◌=s=◌ str_eq_iff
          (λ (t : UserToken). t.device_id) (reissue user_id hash device_name now) device_id hash
          db.user_tokens (λ t. refl) new h.token_devices h.token_hashes;
    token_devices =
        Distinct-update ◌=s=◌ str_eq_iff (λ (t : UserToken). t.device_id) _ _ db.user_tokens
          (λ t. refl) h.token_devices;
    token_users = All-update _ _ _ db.user_tokens (λ t k. a_user) h.token_users;
    never_expires = All-update NeverExpires _ _ db.user_tokens (λ t k. k) h.never_expires;
  }

  inserted :
      IsConsistent db
      → exists (user_has_id user_id) db.users ≡ true
      → exists (token_has_device device_id) db.user_tokens ≡ false
      → exists (λ t. token_has_hash hash t && not (token_has_device device_id t)) db.user_tokens
        ≡ false
      → Tokens db
          (db.next_token_id + 1)
          (db.user_tokens ++ token_row user_id hash device_id device_name now db ∷ [])
  inserted h a_user absent new =
      let row = token_row user_id hash device_id device_name now db in
      record {
        token_ids =
            Distinct-append ◌==◌ ==_iff (λ (t : UserToken). t.token_id) db.user_tokens row
              h.token_ids (new_id db.next_token_id db.user_tokens h.token_ids_used);
        token_ids_used = All-append _ db.user_tokens (row ∷ []) (later_ids db h) (omega arith, tt);
        token_hashes =
            Distinct-append ◌=s=◌ str_eq_iff (λ (t : UserToken). t.token_hash) db.user_tokens row
              h.token_hashes (new_hash db.user_tokens new absent);
        token_devices =
            Distinct-append ◌=s=◌ str_eq_iff (λ (t : UserToken). t.device_id) db.user_tokens row
              h.token_devices absent;
        token_users = All-append _ db.user_tokens (row ∷ []) h.token_users (a_user, tt);
        never_expires =
            All-append NeverExpires db.user_tokens (row ∷ []) h.never_expires (refl, tt);
      }

  pub upsert_token-IsConsistent :
      IsConsistent db → IsConsistent (upsert_token user_id hash device_id device_name now db).1
  unfolding upsert_token
  upsert_token-IsConsistent h =
      elim (Bool-cases (
        exists (λ t. token_has_hash hash t && not (token_has_device device_id t)) db.user_tokens)) [
          | inl clash ↦ rw clash (take_token_id-IsConsistent db h)
          | inr new ↦ elim (Bool-cases (exists (user_has_id user_id) db.users)) [
            | inr no_user ↦ rw (new, no_user) (take_token_id-IsConsistent db h)
            | inl a_user ↦ elim (Bool-cases (exists (token_has_device device_id) db.user_tokens)) [
              | inl there ↦ rw (new, a_user, there) (replace_rows db _ _ h (updated h a_user new))
              | inr absent ↦
                  rw (new, a_user, absent) (replace_rows db _ _ h (inserted h a_user absent new))
            ]
          ]
        ]

pub rotate_token-IsConsistent :
    (token_id : ℕ) (hash : List ℕ) (now : Time) (db : Database)
    → IsConsistent db
    → IsConsistent (rotate_token token_id hash now db).1
unfolding rotate_token
rotate_token-IsConsistent token_id hash now db h =
    elim (Bool-cases (exists (token_has_id token_id) db.user_tokens)) [
      | inr absent ↦ rw absent h
      | inl there ↦
          elim (Bool-cases
            (exists (λ t. token_has_hash hash t && not (token_has_id token_id t)) db.user_tokens)) [
              | inl clash ↦ rw (there, clash) h
              | inr new ↦
                  rw (there, new)
                    (replace_rows db db.next_token_id _ h (record {
                      token_ids =
                          Distinct-update ◌==◌ ==_iff (λ (t : UserToken). t.token_id) _ _
                            db.user_tokens (λ t. refl) h.token_ids;
                      token_ids_used = All-update _ _ _ db.user_tokens (λ t k. k) h.token_ids_used;
                      token_hashes =
                          Distinct-update_one ◌=s=◌ str_eq_iff (λ (t : UserToken). t.token_hash)
                            ◌==◌ ==_iff (λ (t : UserToken). t.token_id) (rotate hash now) token_id
                            hash db.user_tokens (λ t. refl) new h.token_ids h.token_hashes;
                      token_devices =
                          Distinct-update ◌=s=◌ str_eq_iff (λ (t : UserToken). t.device_id) _ _
                            db.user_tokens (λ t. refl) h.token_devices;
                      token_users = All-update _ _ _ db.user_tokens (λ t k. k) h.token_users;
                      never_expires =
                          All-update NeverExpires _ _ db.user_tokens (λ t k. k) h.never_expires;
                    }))
            ]
    ]
