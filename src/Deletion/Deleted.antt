-- ===== src/Deletion/Deleted.antt =====
-- The worker of server/auth/delete.go and the users whose deletion is due: they are deleted.
use ppgram.Prelude.{
  ℕ, zero, suc, ◌≤◌, Bool, true, false, ◌&&◌, List, [], ◌∷◌, map, length, take, GoString, is_empty,
  ◌≡◌, refl, ap, ◌∙◌, arith, if◌then◌else◌,
}
use ppgram.Table.{select, exists}
use ppgram.Errors.{Result, ok, db_failure}
use ppgram.Database.{Time, PendingAccountDeletion, user_has_id}
use ppgram.Database.Deletions.{
  is_due, start, due_rows, order_by_delete_at, insert_by_delete_at, claim_due_rows,
}
use ppgram.Backend.{Backend, handle}
use ppgram.Backend.Returns.{handle-step}
use ppgram.Repository.{claim_due}
use ppgram.Password.{Crypto}
use ppgram.Auth.{default_deps}
use ppgram.Auth.Refusals.{Steady}
use ppgram.Deletion.{delete_accounts, process_due_account_deletions, ignore}
use ppgram.Deletion.Turn.{of_user, query-quiet, delete_accounts-Gone}

module _ (p : PendingAccountDeletion → Bool) where
  exists-insert_by_delete_at :
      (d : PendingAccountDeletion) (rows : List PendingAccountDeletion)
      → exists p (insert_by_delete_at d rows) ≡ (if p d then true else exists p rows)
  unfolding exists insert_by_delete_at
  exists-insert_by_delete_at d [] = refl
  exists-insert_by_delete_at d (e ∷ rows) = ground (arith, exists-insert_by_delete_at d rows)

  exists-order_by_delete_at :
      (rows : List PendingAccountDeletion) → exists p (order_by_delete_at rows) ≡ exists p rows
  unfolding exists order_by_delete_at
  exists-order_by_delete_at [] = refl
  exists-order_by_delete_at (d ∷ rows) =
      exists-insert_by_delete_at d (order_by_delete_at rows)
      ∙ ap (λ (t : Bool). if p d then true else t) (exists-order_by_delete_at rows)

  exists-select_both :
      (q : PendingAccountDeletion → Bool) (rows : List PendingAccountDeletion)
      → exists (λ d. p d && q d) rows ≡ true
      → exists p (select q rows) ≡ true
  unfolding exists select
  exists-select_both q [] h = cc h
  exists-select_both q (d ∷ rows) h = ground (arith, exists-select_both q rows)

length-insert_by_delete_at :
    (d : PendingAccountDeletion) (rows : List PendingAccountDeletion)
    → length (insert_by_delete_at d rows) ≡ suc (length rows)
unfolding insert_by_delete_at
length-insert_by_delete_at d [] = refl
length-insert_by_delete_at d (e ∷ rows) = ground (arith, length-insert_by_delete_at d rows)

length-order_by_delete_at :
    (rows : List PendingAccountDeletion) → length (order_by_delete_at rows) ≡ length rows
unfolding order_by_delete_at
length-order_by_delete_at [] = refl
length-order_by_delete_at (d ∷ rows) =
    length-insert_by_delete_at d (order_by_delete_at rows) ∙ ap suc (length-order_by_delete_at rows)

take_short {ℓ} : {A : Type ℓ} (n : ℕ) (xs : List A) → length xs ≤ n → take n xs ≡ xs
take_short zero [] h = refl
take_short zero (x ∷ xs) h = absurd (omega arith)
take_short (suc n) [] h = refl
take_short (suc n) (x ∷ xs) h = ap (λ (l : List _). x ∷ l) (take_short n xs (omega arith))

exists-map_start :
    (id : GoString) (now : Time) (rows : List PendingAccountDeletion)
    → exists (of_user id) (map (start now) rows) ≡ exists (of_user id) rows
unfolding exists
exists-map_start id now [] = refl
exists-map_start id now (d ∷ rows) =
    ap (λ (t : Bool). if of_user id d then true else t) (exists-map_start id now rows)

-- The rows that a claim takes if there are not too many.
due_rows-exists :
    (id : GoString) (now : Time) (rows : List PendingAccountDeletion)
    → exists (λ d. of_user id d && is_due now d) rows ≡ true
    → length (select (is_due now) rows) ≤ 50
    → exists (of_user id) (due_rows 50 now rows) ≡ true
unfolding due_rows
due_rows-exists id now rows h few =
    ap (exists (of_user id)) (
      take_short 50 (order_by_delete_at (select (is_due now) rows))
        (omega (arith, length-order_by_delete_at (select (is_due now) rows), few)))
    ∙ exists-order_by_delete_at (of_user id) (select (is_due now) rows)
    ∙ exists-select_both (of_user id) (is_due now) rows h

claim_due-quiet :
    (b : Backend)
    → b.faults ≡ []
    → claim_due 50 b ≡ (
      ok (map (start b.db_now) (due_rows 50 b.db_now b.db.pending_account_deletions)),
      record b { db = (claim_due_rows 50 b.db_now b.db).1 },
    )
unfolding claim_due
claim_due-quiet b quiet =
    query-quiet db_failure (claim_due_rows 50) _ b quiet (unfold claim_due_rows in refl)

if_ready {ℓ} :
    {A : Type ℓ} (t : Bool) (r r' : Result A) (b : Backend)
    → t ≡ true
    → if◌then◌else◌ {A = Result A × Backend} t (r, b) (r', b) ≡ (r, b)
if_ready true r r' b h = refl
if_ready false r r' b h = cc h

default_deps-ready : (b : Backend) → b.db_ready ≡ true → default_deps b ≡ (ok b.redis_ready, b)
unfolding default_deps
default_deps-ready b h = if_ready b.db_ready _ _ b h

-- With the database there and connections that work, if a deletion of a user, by its trimmed id,
-- which is not empty, is due and not started, and at most 50 deletions are, then after one run of
-- the worker no user has that id.
pub process_due_account_deletions-Deleted :
    (id : GoString) (crypto : Crypto) (b : Backend)
    → Steady b
    → is_empty id ≡ false
    → exists (λ d. of_user id d && is_due b.db_now d) b.db.pending_account_deletions ≡ true
    → length (select (is_due b.db_now) b.db.pending_account_deletions) ≤ 50
    → exists (user_has_id id) (process_due_account_deletions crypto b).1.db.users ≡ false
unfolding process_due_account_deletions
process_due_account_deletions-Deleted id crypto b steady given due few =
    let claimed = map (start b.db_now) (due_rows 50 b.db_now b.db.pending_account_deletions) in
    let c : Backend = record b { db = (claim_due_rows 50 b.db_now b.db).1 } in
    let run =
      handle-step default_deps ignore
        (λ redis. handle (claim_due 50) ignore λ claimed. delete_accounts crypto redis claimed)
        (default_deps-ready b steady.ready)
      ∙ handle-step (claim_due 50) ignore (λ claimed. delete_accounts crypto b.redis_ready claimed)
          (claim_due-quiet b steady.no_faults) in
    ap (λ r. exists (user_has_id id) r.1.db.users) run
    ∙ delete_accounts-Gone id crypto b.redis_ready claimed c steady.no_faults given (
        exists-map_start id b.db_now _
        ∙ due_rows-exists id b.db_now b.db.pending_account_deletions due few)
