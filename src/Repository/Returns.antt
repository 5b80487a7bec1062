-- ===== src/Repository/Returns.antt =====
-- What a successful call of a repository's method says of the tables.
use ppgram.Prelude.{
  ℕ, Bool, true, false, not, ◌≡◌, refl, ap, sym, ◌∙◌, List, Option, none, some, GoString, arith,
  ◌&&◌, subst,
}
use ppgram.Table.{find, exists}
use ppgram.Text.{trim_space}
use ppgram.Errors.{Error, db_failure, user_not_found, username_taken, user_token_not_found}
use ppgram.Database.{User, UserToken, Statement, done, user_has_name, deletion_of, token_has_hash}
use ppgram.Database.Users.{select_user_by_username, username_exists, insert_user}
use ppgram.Database.Tokens.{select_active_token, is_active, upsert_token, rotate_token}
use ppgram.Database.Deletions.{deletion_exists}
use ppgram.Backend.{Backend, Exec, raise, query, refuse_if, ◌>>=◌, ◌>>◌}
use ppgram.Backend.Returns.{Returns, >>=-Returns, pure-Returns, refuse_if-Returns, query-Returns}
use ppgram.Repository.{
  row_or, get_user_by_username, exists_active_by_user_id, is_username_available,
  get_active_by_token_hash, upsert_active_token, rotate_user_token, create_user,
}

-- Only the future of the connections has moved.
abbrev pub Untouched : Backend → Backend → Type 0
Untouched b b' = b' ≡ record b { faults = b'.faults }

pub row_or-Returns {ℓ} :
    {A : Type ℓ} (e : Error) (o : Option A) {b b' : Backend} {a : A}
    → Returns (row_or e o) b a b'
    → (o ≡ some a) × (b ≡ b')
unfolding row_or
row_or-Returns e none h = unfold raise in cc (ap (λ r. r.0) h)
row_or-Returns e (some x) h = let (same, still) = pure-Returns h in (ap (λ y. some y) same, still)

-- A statement that changes no table.
pub reads-Returns {ℓ} :
    {A : Type ℓ} (on_unique : Error) (f : Statement A) (o : A) (b : Backend) {b' : Backend} {a : A}
    → f b.db_now b.db ≡ (done o, b.db)
    → Returns (query on_unique f) b a b'
    → (o ≡ a) × Untouched b b'
reads-Returns on_unique f o b {b'} {a} reads h =
    let (answer, state) = query-Returns on_unique f b h in
    (
      cc (ap (λ r. r.0) reads, answer),
      state ∙ ap (λ r. record b { db = r.1; faults = b'.faults }) reads,
    )

pub Untouched-trans : (a b c : Backend) → Untouched a b → Untouched b c → Untouched a c
Untouched-trans a b c h k = k ∙ ap (λ (r : Backend). record r { faults = c.faults }) h

-- One that gives a row or none.
pub select-Returns {ℓ} :
    {A : Type ℓ} (on_unique e : Error) (f : Statement (Option A)) (o : Option A) (b : Backend)
    {b' : Backend} {a : A}
    → f b.db_now b.db ≡ (done o, b.db)
    → Returns (query on_unique f >>= row_or e) b a b'
    → (o ≡ some a) × Untouched b b'
select-Returns on_unique e f o b reads h =
    let (row, asked, rest) = >>=-Returns (query on_unique f) (row_or e) h in
    let (same, still) = reads-Returns on_unique f o b reads asked in
    let (found, stop) = row_or-Returns e row rest in (same ∙ found, subst (Untouched b) stop still)

-- A check that passes in front of the rest of a method.
pub refuse_if->>-Returns {ℓ} :
    {A : Type ℓ} (t : Bool) (e : Error) (m : Exec A) {b b' : Backend} {a : A}
    → Returns (refuse_if t e >> m) b a b'
    → (t ≡ false) × Returns m b a b'
refuse_if->>-Returns t e m {b} {b'} {a} h =
    let (u, passed, rest) = >>=-Returns (refuse_if t e) (λ _. m) h in
    let (test, still) = refuse_if-Returns t e passed in
    (test, subst (λ c. Returns m c a b') (sym still) rest)

pub get_user_by_username-Returns :
    (username : GoString) (b : Backend) {b' : Backend} {user : User}
    → Returns (get_user_by_username username) b user b'
    → (find (user_has_name (trim_space username)) b.db.users ≡ some user) × Untouched b b'
unfolding get_user_by_username
get_user_by_username-Returns username b h =
    let (checked, asked) = refuse_if->>-Returns _ _ _ h in
    select-Returns db_failure user_not_found (select_user_by_username (trim_space username)) _ b
      (unfold select_user_by_username in refl) asked

pub exists_active_by_user_id-Returns :
    (user_id : GoString) (b : Backend) {b' : Backend} {pending : Bool}
    → Returns (exists_active_by_user_id user_id) b pending b'
    → (exists (deletion_of (trim_space user_id)) b.db.pending_account_deletions ≡ pending)
      × Untouched b b'
unfolding exists_active_by_user_id
exists_active_by_user_id-Returns user_id b h =
    let (checked, asked) = refuse_if->>-Returns _ _ _ h in
    reads-Returns db_failure (deletion_exists (trim_space user_id)) _ b
      (unfold deletion_exists in refl) asked

pub get_active_by_token_hash-Returns :
    (token_hash : List ℕ) (b : Backend) {b' : Backend} {token : UserToken}
    → Returns (get_active_by_token_hash token_hash) b token b'
    → (find (λ t. token_has_hash token_hash t && is_active b.db_now t) b.db.user_tokens
        ≡ some token)
      × Untouched b b'
unfolding get_active_by_token_hash
get_active_by_token_hash-Returns token_hash b h =
    let (checked, asked) = refuse_if->>-Returns _ _ _ h in
    select-Returns db_failure user_token_not_found (select_active_token token_hash) _ b
      (unfold select_active_token in refl) asked

pub is_username_available-Returns :
    (username : GoString) (b : Backend) {b' : Backend} {available : Bool}
    → Returns (is_username_available username) b available b'
    → (not (exists (user_has_name (trim_space username)) b.db.users) ≡ available) × Untouched b b'
unfolding is_username_available
is_username_available-Returns username b h =
    let (checked, asked) = refuse_if->>-Returns _ _ _ h in
    let (taken, looked, rest) = >>=-Returns _ _ asked in
    let (same, still) =
      reads-Returns db_failure (username_exists (trim_space username))
        (exists (user_has_name (trim_space username)) b.db.users) b (unfold username_exists in refl)
        looked in
    let (flipped, stop) = pure-Returns rest in
    (ap not same ∙ flipped, subst (Untouched b) stop still)

pub upsert_active_token-Returns :
    (user_id device_id device_name : GoString) (token_hash : List ℕ) (b : Backend) {b' : Backend}
    {u : Unit {0}}
    → Returns (upsert_active_token user_id device_id device_name token_hash) b u b'
    → let issued =
        upsert_token
          (trim_space user_id)
          token_hash
          (trim_space device_id)
          (trim_space device_name)
          b.db_now
          b.db in
      (issued.0 ≡ done tt) × (b' ≡ record b { db = issued.1; faults = b'.faults })
unfolding upsert_active_token
upsert_active_token-Returns user_id device_id device_name token_hash b h =
    let (user_given, h1) = refuse_if->>-Returns _ _ _ h in
    let (device_given, h2) = refuse_if->>-Returns _ _ _ h1 in
    let (hash_given, asked) = refuse_if->>-Returns _ _ _ h2 in query-Returns db_failure _ b asked

pub rotate_user_token-Returns :
    (token_id : ℕ) (new_token_hash : List ℕ) (b : Backend) {b' : Backend} {u : Unit {0}}
    → Returns (rotate_user_token token_id new_token_hash) b u b'
    → let rotated = rotate_token token_id new_token_hash b.db_now b.db in
      (rotated.0 ≡ done true) × (b' ≡ record b { db = rotated.1; faults = b'.faults })
unfolding rotate_user_token
rotate_user_token-Returns token_id new_token_hash b {b'} h =
    let (id_given, h1) = refuse_if->>-Returns _ _ _ h in
    let (hash_given, h2) = refuse_if->>-Returns _ _ _ h1 in
    let (found, asked, rest) = >>=-Returns _ _ h2 in
    let (answer, state) = query-Returns db_failure _ b asked in
    let (test, still) = refuse_if-Returns (not found) user_token_not_found rest in
    let yes : found ≡ true = ground arith in
    (
      answer ∙ ap (λ x. done x) yes,
      subst
          (λ (c : Backend). c ≡ record b {
            db = (rotate_token token_id new_token_hash b.db_now b.db).1;
            faults = c.faults;
          })
          still state,
    )

pub create_user-Returns :
    (username display_name password_hash : GoString) (b : Backend) {b' : Backend} {user : User}
    → Returns (create_user username display_name password_hash) b user b'
    → let created =
        insert_user (trim_space username) (trim_space display_name) password_hash b.db_now b.db in
      (created.0 ≡ done user) × (b' ≡ record b { db = created.1; faults = b'.faults })
unfolding create_user
create_user-Returns username display_name password_hash b h =
    let (name_given, h1) = refuse_if->>-Returns _ _ _ h in
    let (hash_given, asked) = refuse_if->>-Returns _ _ _ h1 in
    query-Returns username_taken _ b asked
