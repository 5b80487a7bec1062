-- ===== src/Deletion/Progress.antt =====
-- The steps of the worker of server/auth/delete.go bring no user back and lose no connection.
use ppgram.Prelude.{
  Bool, true, false, not, List, [], ◌∷◌, Option, none, some, GoString, ◌≡◌, refl, arith, Bool-cases,
  inl, inr,
}
use ppgram.Text.{trim_space}
use ppgram.Username.{normalize_username, valid_username}
use ppgram.Table.{select, exists}
use ppgram.Errors.{Error, is_user_not_found, user_not_found}
use ppgram.Database.{Time, Database, Statement, PendingAccountDeletion, User, user_has_id}
use ppgram.Database.Users.{delete_user, drop_user}
use ppgram.Database.Deletions.{delete_deletion}
use ppgram.Backend.{
  Backend, Fault, fine, lost_request, lost_reply, pure, raise, ◌>>=◌, refuse_if, query,
  run_statement, run_with,
}
use ppgram.Backend.Within.{Within, >>=-Within, handle-Within}
use ppgram.Repository.{row_or, delete_user_by_id, delete_by_user_id}
use ppgram.Cache.{Redis, call_with, redis_call, require_client, remove_username}
use ppgram.Password.{Crypto}
use ppgram.Deletion.{remove_username_from_cache, after_failed_delete, delete_account}

module _ (id : GoString) where
  abbrev pub Gone : Backend → Type 0
  Gone b = exists (user_has_id id) b.db.users ≡ false

  -- Connections that work go on to work, and a user that is gone stays gone.
  abbrev pub Onward : Backend → Backend → Type 0
  Onward b c = (b.faults ≡ [] → c.faults ≡ []) × (Gone b → Gone c)

  pub Onward-trans : (a b c : Backend) → Onward a b → Onward b c → Onward a c
  Onward-trans a b c h k = (λ q. k.0 (h.0 q), λ q. k.1 (h.1 q))

  pub pure-Onward {ℓ} : {A : Type ℓ} (a : A) → Within Onward (pure a)
  unfolding pure
  pure-Onward a b = (λ q. q, λ q. q)

  refuse_if-Onward : (t : Bool) (e : Error) → Within Onward (refuse_if t e)
  unfolding refuse_if
  refuse_if-Onward true e b = (λ q. q, λ q. q)
  refuse_if-Onward false e b = (λ q. q, λ q. q)

  row_or-Onward {ℓ} : {A : Type ℓ} (e : Error) (o : Option A) → Within Onward (row_or e o)
  unfolding row_or raise pure
  row_or-Onward e none b = (λ q. q, λ q. q)
  row_or-Onward e (some a) b = (λ q. q, λ q. q)

  run_with-Onward {ℓ} :
      {A : Type ℓ} (faults : List Fault) (f : Statement A) (b : Backend)
      → b.faults ≡ faults
      → (Gone b → exists (user_has_id id) (f b.db_now b.db).1.users ≡ false)
      → Onward b (run_with faults f b).1
  unfolding run_with
  run_with-Onward [] f b e h = (λ q. q, h)
  run_with-Onward (fine ∷ rest) f b e h = (λ q. cc, h)
  run_with-Onward (lost_request ∷ rest) f b e h = (λ q. cc, λ q. q)
  run_with-Onward (lost_reply ∷ rest) f b e h = (λ q. cc, h)

  query-Onward {ℓ} :
      {A : Type ℓ} (e : Error) (f : Statement A)
      → ((now : Time) (db : Database)
          → exists (user_has_id id) db.users ≡ false
          → exists (user_has_id id) (f now db).1.users ≡ false)
      → Within Onward (query e f)
  unfolding query run_statement
  query-Onward e f h b = run_with-Onward b.faults f b refl (h b.db_now b.db)

  call_with-Onward {ℓ} :
      {A : Type ℓ} (faults : List Fault) (f : Redis → A × Redis) (b : Backend)
      → b.faults ≡ faults
      → Onward b (call_with faults f b).1
  unfolding call_with
  call_with-Onward [] f b e = (λ q. q, λ q. q)
  call_with-Onward (fine ∷ rest) f b e = (λ q. cc, λ q. q)
  call_with-Onward (lost_request ∷ rest) f b e = (λ q. cc, λ q. q)
  call_with-Onward (lost_reply ∷ rest) f b e = (λ q. cc, λ q. q)

  redis_call-Onward {ℓ} : {A : Type ℓ} (f : Redis → A × Redis) → Within Onward (redis_call f)
  unfolding redis_call
  redis_call-Onward f b = call_with-Onward b.faults f b refl

  require_client-Onward : Within Onward require_client
  unfolding require_client
  require_client-Onward b = refuse_if-Onward _ _ b

  select-gone :
      (p : User → Bool) (users : List User)
      → exists (user_has_id id) users ≡ false
      → exists (user_has_id id) (select p users) ≡ false
  unfolding exists select
  select-gone p [] h = refl
  select-gone p (u ∷ users) h = ground (arith, select-gone p users)

  pub drop_user-gone :
      (users : List User)
      → exists (user_has_id id) (select (λ u. not (user_has_id id u)) users) ≡ false
  unfolding exists select
  drop_user-gone [] = refl
  drop_user-gone (u ∷ users) = ground (arith, drop_user-gone users)

  then_row-Onward :
      (e : Error) (user_id : GoString)
      → Within Onward (query e (delete_user user_id) >>= row_or user_not_found)
  unfolding delete_user drop_user
  then_row-Onward e user_id =
      >>=-Within Onward Onward-trans _ _
        (query-Onward e _ (λ now db h. select-gone (λ u. not (user_has_id user_id u)) db.users h))
        (row_or-Onward _)

  pub delete_user_by_id-Onward : (user_id : GoString) → Within Onward (delete_user_by_id user_id)
  unfolding delete_user_by_id
  delete_user_by_id-Onward user_id =
      >>=-Within Onward Onward-trans _ _ (refuse_if-Onward _ _)
        λ _. then_row-Onward _ (trim_space user_id)

  delete_by_user_id-Onward : (user_id : GoString) → Within Onward (delete_by_user_id user_id)
  unfolding delete_by_user_id delete_deletion
  delete_by_user_id-Onward user_id =
      >>=-Within Onward Onward-trans _ _ (refuse_if-Onward _ _)
        λ _. query-Onward _ _ (λ now db h. h)

  pub after_failed_delete-Onward :
      (item : PendingAccountDeletion) (e : Error) → Within Onward (after_failed_delete item e)
  unfolding after_failed_delete
  after_failed_delete-Onward item e = elim (Bool-cases (is_user_not_found e)) [
    | inl gone ↦ rw gone (
        handle-Within Onward Onward-trans _ _ _ (delete_by_user_id-Onward item.user_id)
          (λ _. pure-Onward tt) pure-Onward)
    | inr other ↦ rw other (pure-Onward tt)
  ]

  remove_username-Onward : (username : GoString) → Within Onward (remove_username username)
  unfolding remove_username
  remove_username-Onward username =
      >>=-Within Onward Onward-trans _ _ require_client-Onward
        λ _. >>=-Within Onward Onward-trans _ _ (refuse_if-Onward _ _) λ _. redis_call-Onward _

  pub remove_username_from_cache-Onward :
      (crypto : Crypto) (redis : Bool) (username : GoString)
      → Within Onward (remove_username_from_cache crypto redis username)
  unfolding remove_username_from_cache
  remove_username_from_cache-Onward crypto false username = pure-Onward tt
  remove_username_from_cache-Onward crypto true username =
      let name = normalize_username crypto.lower_high username in
      elim (Bool-cases (not (valid_username name))) [
        | inl invalid ↦ rw invalid (pure-Onward tt)
        | inr valid ↦ rw valid (
            handle-Within Onward Onward-trans _ _ _ (remove_username-Onward name)
              (λ _. pure-Onward tt) pure-Onward)
      ]

  pub delete_account-Onward :
      (crypto : Crypto) (redis : Bool) (item : PendingAccountDeletion)
      → Within Onward (delete_account crypto redis item)
  unfolding delete_account
  delete_account-Onward crypto redis item =
      handle-Within Onward Onward-trans _ _ _ (delete_user_by_id-Onward item.user_id)
        (after_failed_delete-Onward item) (remove_username_from_cache-Onward crypto redis)
