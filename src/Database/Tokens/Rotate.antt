-- ===== src/Database/Tokens/Rotate.antt =====
-- What is found by its hash after `RotateToken`.
use ppgram.Prelude.{
  ℕ, Bool, true, false, not, ◌&&◌, ◌≡◌, refl, subst, List, [], ◌∷◌, some, ◌==◌, ◌=s=◌, str_eq_iff,
  str_eq_refl, arith, Bool-cases, inl, inr,
}
use ppgram.Table.{find, update, exists}
use ppgram.Table.Keys.{Distinct}
use ppgram.Table.Rows.{find-some}
use ppgram.Database.{Time, UserToken, Database, done, token_has_hash}
use ppgram.Database.Tokens.{is_active, rotate, token_has_id, rotate_token}
use ppgram.Database.Tokens.Issue.{active_with}

module _ (hash new : List ℕ) (now : Time) where
  -- The row that was found by its hash, under the new hash.
  pub record Rotated (rows : List UserToken) (token : UserToken) : Type 0 where
    pub found : find (active_with new now) rows ≡ some (rotate new now token)
    pub old_gone : exists (token_has_hash hash) rows ≡ false

  rotate-active :
      (t : UserToken) → is_active now t ≡ true → active_with new now (rotate new now t) ≡ true
  unfolding is_active
  rotate-active t h = rw (str_eq_refl new) h

  no_hash :
      (id : ℕ) (rows : List UserToken)
      → exists (token_has_id id) rows ≡ false
      → exists (token_has_hash hash) rows ≡ false
      → exists (token_has_hash hash) (update (token_has_id id) (rotate new now) rows) ≡ false
  unfolding exists update
  no_hash id [] h k = refl
  no_hash id (t ∷ rows) h k = ground (arith, no_hash id rows)

  first-Rotated :
      (t : UserToken) (rows : List UserToken)
      → (new =s= hash) ≡ false
      → exists (λ u. u.token_hash =s= t.token_hash) rows ≡ false
      → exists (λ u. u.token_id == t.token_id) rows ≡ false
      → active_with hash now t ≡ true
      → Rotated (update (token_has_id t.token_id) (rotate new now) (t ∷ rows)) t
  unfolding exists update find
  first-Rotated t rows differs hashes ids here =
      let itself : (t.token_id == t.token_id) ≡ true = ground arith in
      let has_hash : (t.token_hash =s= hash) ≡ true = ground arith in
      let active : is_active now t ≡ true = ground arith in
      let none_left =
        subst (λ x. exists (token_has_hash x) rows ≡ false)
          ((str_eq_iff t.token_hash hash).0 has_hash) hashes in
      rw itself (record {
        found = rw (rotate-active t active) refl;
        old_gone = rw differs (no_hash t.token_id rows ids none_left);
      })

  find-exists :
      (p q : UserToken → Bool) (rows : List UserToken) {token : UserToken}
      → find p rows ≡ some token
      → q token ≡ true
      → exists q rows ≡ true
  unfolding find exists
  find-exists p q [] h k = cc
  find-exists p q (t ∷ rows) {token} h k = elim (Bool-cases (p t)) [
    | inl here ↦
        let same : t ≡ token = cc (rw here at h) in let k' = rw (← same) at k in ground arith
    | inr other ↦ ground (arith, find-exists p q rows {token = token} (rw other at h) k)
  ]

  -- A row whose key no other row has is not the row that was found.
  not_key :
      (rows : List UserToken) (t : UserToken)
      → exists (token_has_hash hash) rows ≡ true
      → exists (λ u. u.token_hash =s= t.token_hash) rows ≡ false
      → token_has_hash hash t ≡ false
  not_key rows t there distinct = elim (Bool-cases (token_has_hash hash t)) [
    | inl has ↦
        let none_there =
          subst (λ x. exists (token_has_hash x) rows ≡ false) ((str_eq_iff t.token_hash hash).0 has)
            distinct in
        cc (none_there, there)
    | inr hasnt ↦ hasnt
  ]

  not_id_key :
      (id : ℕ) (rows : List UserToken) (t : UserToken)
      → exists (token_has_id id) rows ≡ true
      → exists (λ u. u.token_id == t.token_id) rows ≡ false
      → token_has_id id t ≡ false
  not_id_key id rows t there distinct = elim (Bool-cases (token_has_id id t)) [
    | inl has ↦
        let same : t.token_id ≡ id = ground arith in
        let none_there = subst (λ x. exists (token_has_id x) rows ≡ false) same distinct in
        cc (none_there, there)
    | inr hasnt ↦ hasnt
  ]

  update-Rotated :
      (rows : List UserToken) {token : UserToken}
      → (new =s= hash) ≡ false
      → Distinct ◌=s=◌ (λ t. t.token_hash) rows
      → Distinct ◌==◌ (λ t. t.token_id) rows
      → find (active_with hash now) rows ≡ some token
      → exists (λ t. token_has_hash new t && not (token_has_id token.token_id t)) rows ≡ false
      → Rotated (update (token_has_id token.token_id) (rotate new now) rows) token
  unfolding exists update find
  update-Rotated [] differs hashes ids h fresh = cc
  update-Rotated (t ∷ rows) {token} differs hashes ids h fresh =
      elim (Bool-cases (active_with hash now t)) [
        | inl here ↦
            let same : t ≡ token = cc (rw here at h) in
            subst (λ x. Rotated (update (token_has_id x.token_id) (rotate new now) (t ∷ rows)) x)
              same (first-Rotated t rows differs hashes.0 ids.0 here)
        | inr other ↦
            let later : find (active_with hash now) rows ≡ some token = rw other at h in
            let is_token = (find-some (active_with hash now) rows {x = token} later).0 in
            let has_hash : token_has_hash hash token ≡ true = ground arith in
            let there =
              find-exists (active_with hash now) (token_has_hash hash) rows later has_hash in
            let there_id =
              find-exists (active_with hash now) (token_has_id token.token_id) rows later
                (ground arith) in
            let not_hash : token_has_hash hash t ≡ false = not_key rows t there hashes.0 in
            let not_id : token_has_id token.token_id t ≡ false =
              not_id_key token.token_id rows t there_id ids.0 in
            let rest =
              update-Rotated rows {token = token} differs hashes.1 ids.1 later (ground arith) in
            let not_new : token_has_hash new t ≡ false = ground arith in
            rw not_id
              (record { found = rw not_new rest.found; old_gone = rw not_hash rest.old_gone })
      ]

  pub rotate_token-Rotated :
      (db : Database) (token : UserToken)
      → (new =s= hash) ≡ false
      → Distinct ◌=s=◌ (λ t. t.token_hash) db.user_tokens
      → Distinct ◌==◌ (λ t. t.token_id) db.user_tokens
      → find (active_with hash now) db.user_tokens ≡ some token
      → (rotate_token token.token_id new now db).0 ≡ done true
      → Rotated (rotate_token token.token_id new now db).1.user_tokens token
        × ((rotate_token token.token_id new now db).1.users ≡ db.users)
  unfolding rotate_token
  rotate_token-Rotated db token differs hashes ids found h =
      let fresh = λ (t : UserToken). token_has_hash new t && not (token_has_id token.token_id t) in
      elim (Bool-cases (exists (token_has_id token.token_id) db.user_tokens)) [
        | inr absent ↦ cc (rw absent at h)
        | inl there ↦ elim (Bool-cases (exists fresh db.user_tokens)) [
          | inl clash ↦ cc (rw (there, clash) at h)
          | inr new_hash ↦
              rw (there, new_hash)
                (
                  update-Rotated db.user_tokens {token = token} differs hashes ids found new_hash,
                  refl,
                )
        ]
      ]
