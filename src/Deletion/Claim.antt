-- ===== src/Deletion/Claim.antt =====
-- `ClaimDue` of database/pending_account_deletions.go: which rows the worker takes.
use ppgram.Prelude.{
  ℕ, zero, suc, ◌≤◌, ◌∙◌, true, false, List, [], ◌∷◌, map, take, length, some, ◌≡◌, refl, ap, arith,
  All, Bool-cases, inl, inr, leb,
}
use ppgram.Table.{update, exists}
use ppgram.Table.Rows.{All-select_imp}
use ppgram.Database.{Time, Database, PendingAccountDeletion, done}
use ppgram.Database.Deletions.{
  insert_by_delete_at, order_by_delete_at, is_due, due_rows, start, is_among, claim_due_rows,
}

module _ {ℓ} (P : PendingAccountDeletion → Type ℓ) where
  All-insert_by_delete_at :
      (d : PendingAccountDeletion) (rows : List PendingAccountDeletion)
      → P d
      → All P rows
      → All P (insert_by_delete_at d rows)
  unfolding insert_by_delete_at
  All-insert_by_delete_at d [] p h = (p, tt)
  All-insert_by_delete_at d (e ∷ rows) p h = elim (Bool-cases (leb d.delete_at e.delete_at)) [
    | inl before ↦ rw before (p, h)
    | inr later ↦ rw later (h.0, All-insert_by_delete_at d rows p h.1)
  ]

  All-order_by_delete_at :
      (rows : List PendingAccountDeletion) → All P rows → All P (order_by_delete_at rows)
  unfolding order_by_delete_at
  All-order_by_delete_at [] h = tt
  All-order_by_delete_at (d ∷ rows) h =
      All-insert_by_delete_at d (order_by_delete_at rows) h.0 (All-order_by_delete_at rows h.1)

  All-take : (n : ℕ) (rows : List PendingAccountDeletion) → All P rows → All P (take n rows)
  All-take zero rows h = tt
  All-take (suc n) [] h = tt
  All-take (suc n) (d ∷ rows) h = (h.0, All-take n rows h.1)

module _ {ℓ κ} (P : PendingAccountDeletion → Type ℓ) (Q : PendingAccountDeletion → Type κ) where
  -- What holds of the due rows of a table.
  pub All-due_rows :
      (limit : ℕ) (now : Time) (rows : List PendingAccountDeletion)
      → ((d : PendingAccountDeletion) → is_due now d ≡ true → P d → Q d)
      → All P rows
      → All Q (due_rows limit now rows)
  unfolding due_rows
  All-due_rows limit now rows imp h =
      All-take Q limit _ (All-order_by_delete_at Q _ (All-select_imp P Q (is_due now) rows imp h))

-- A row that was claimed at an instant: it is marked, and its time has come.
pub record ClaimedAt (now : Time) (d : PendingAccountDeletion) : Type 0 where
  pub marked : d.started_at ≡ some now
  pub came : d.delete_at ≤ now

All-map_start :
    (now : Time) (due : List PendingAccountDeletion)
    → All (λ d. is_due now d ≡ true) due
    → All (ClaimedAt now) (map (start now) due)
unfolding is_due
All-map_start now [] h = tt
All-map_start now (d ∷ due) h =
    (record { marked = refl; came = ground arith }, All-map_start now due h.1)

length-take_bound : (n : ℕ) (rows : List PendingAccountDeletion) → length (take n rows) ≤ n
length-take_bound zero rows = omega arith
length-take_bound (suc n) [] = omega arith
length-take_bound (suc n) (d ∷ rows) = omega (arith, length-take_bound n rows)

length-map_start :
    (now : Time) (rows : List PendingAccountDeletion) → length (map (start now) rows) ≡ length rows
length-map_start now [] = refl
length-map_start now (d ∷ rows) = ap (λ n. suc n) (length-map_start now rows)

All-trivial : (rows : List PendingAccountDeletion) → All (λ _. Unit {0}) rows
All-trivial [] = tt
All-trivial (d ∷ rows) = (tt, All-trivial rows)

pub claimed-eq :
    (limit : ℕ) (now : Time) (db : Database) (claimed : List PendingAccountDeletion)
    → (claim_due_rows limit now db).0 ≡ done claimed
    → map (start now) (due_rows limit now db.pending_account_deletions) ≡ claimed
unfolding claim_due_rows
claimed-eq limit now db claimed h = cc h

-- A claim takes at most as many rows as its limit says, and every row that it takes is marked
-- with the time of the claim and was due by then.
pub claim_due_rows-ClaimedAt :
    (limit : ℕ) (now : Time) (db : Database) (claimed : List PendingAccountDeletion)
    → (claim_due_rows limit now db).0 ≡ done claimed
    → All (ClaimedAt now) claimed × (length claimed ≤ limit)
claim_due_rows-ClaimedAt limit now db claimed h =
    let rows = db.pending_account_deletions in
    let due =
      All-due_rows (λ _. Unit {0}) (λ d. is_due now d ≡ true) limit now rows (λ d is _. is)
        (All-trivial rows) in
    let bound : length (due_rows limit now rows) ≤ limit =
      unfold due_rows in length-take_bound limit _ in
    rw (← claimed-eq limit now db claimed h)
      (All-map_start now _ due, rw (length-map_start now (due_rows limit now rows)) bound)

-- Whatever is due later among the rows after a claim is not among those that were claimed.
update-not_due :
    (due rows : List PendingAccountDeletion) (now later : Time)
    → All
        (λ d. is_due later d ≡ true → is_among due d ≡ false)
        (update (is_among due) (start now) rows)
unfolding update is_due
update-not_due due [] now later = tt
update-not_due due (d ∷ rows) now later = elim (Bool-cases (is_among due d)) [
  | inl among ↦ rw among ((λ h. ground arith), update-not_due due rows now later)
  | inr other ↦ rw other ((λ h. other), update-not_due due rows now later)
]

is_among-map_start :
    (due : List PendingAccountDeletion) (now : Time) (d : PendingAccountDeletion)
    → is_among (map (start now) due) d ≡ is_among due d
unfolding is_among exists
is_among-map_start [] now d = refl
is_among-map_start (e ∷ due) now d = ground (arith, is_among-map_start due now d)

All-map_among :
    (first due : List PendingAccountDeletion) (now : Time)
    → All (λ d. is_among first d ≡ false) due
    → All (λ d. is_among first d ≡ false) (map (start now) due)
unfolding is_among
All-map_among first [] now h = tt
All-map_among first (d ∷ due) now h = (h.0, All-map_among first due now h.1)

-- Of two claims one after the other, at any times and with any limits, the second takes no row of
-- a user whose row the first has taken.
pub claim_due_rows-once :
    (limit limit' : ℕ) (now later : Time) (db : Database)
    (first second : List PendingAccountDeletion)
    → (claim_due_rows limit now db).0 ≡ done first
    → (claim_due_rows limit' later (claim_due_rows limit now db).1).0 ≡ done second
    → All (λ d. is_among first d ≡ false) second
claim_due_rows-once limit limit' now later db first second h k =
    let due = due_rows limit now db.pending_account_deletions in
    let after = update (is_among due) (start now) db.pending_account_deletions in
    let same : map (start now) due ≡ first = claimed-eq limit now db first h in
    let rest : All (λ d. is_among first d ≡ false) (due_rows limit' later after) =
      All-due_rows (λ d. is_due later d ≡ true → is_among due d ≡ false)
        (λ d. is_among first d ≡ false) limit' later after
        (λ d is not_among. rw (← same) (is_among-map_start due now d ∙ not_among is))
        (update-not_due due db.pending_account_deletions now later) in
    rw (← claimed-eq limit' later _ second k)
      (unfold claim_due_rows in All-map_among first _ later rest)
