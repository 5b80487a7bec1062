-- ===== src/Table/Rows.antt =====
-- What holds of every row, and which rows there are, after the clauses of a statement.
use ppgram.Prelude.{
  Bool, true, false, not, List, [], ◌∷◌, ◌++◌, none, some, ◌≡◌, refl, arith, All, Bool-cases, inl,
  inr,
}
use ppgram.Table.{find, select, update, exists}

module _ {ℓ} {A : Type ℓ} where
  pub exists-append :
      (p : A → Bool) (xs : List A) (x : A)
      → exists p (xs ++ x ∷ []) ≡ true
      → p x ≡ false
      → exists p xs ≡ true
  unfolding exists
  exists-append p [] x h no_x = ground arith
  exists-append p (y ∷ xs) x h no_x = ground (arith, exists-append p xs x)

  -- An added row adds to what exists.
  pub exists-append_left :
      (p : A → Bool) (xs : List A) (x : A) → exists p xs ≡ true → exists p (xs ++ x ∷ []) ≡ true
  unfolding exists
  exists-append_left p [] x h = cc
  exists-append_left p (y ∷ xs) x h = ground (arith, exists-append_left p xs x)

  pub exists-append_self :
      (p : A → Bool) (xs : List A) (x : A) → p x ≡ true → exists p (xs ++ x ∷ []) ≡ true
  unfolding exists
  exists-append_self p [] x h = ground arith
  exists-append_self p (y ∷ xs) x h = ground (arith, exists-append_self p xs x h)

  -- What is found meets the condition, and exists.
  pub find-some :
      (p : A → Bool) (xs : List A) {x : A}
      → find p xs ≡ some x
      → (p x ≡ true) × (exists p xs ≡ true)
  unfolding find exists
  find-some p [] h = cc
  find-some p (y ∷ xs) {x} h = ground (arith, find-some p xs {x = x})

  pub find-none : (p : A → Bool) (xs : List A) → find p xs ≡ none → exists p xs ≡ false
  unfolding find exists
  find-none p [] h = refl
  find-none p (y ∷ xs) h = ground (arith, find-none p xs)

  pub exists-find : (p : A → Bool) (xs : List A) → exists p xs ≡ false → find p xs ≡ none
  unfolding find exists
  exists-find p [] h = refl
  exists-find p (y ∷ xs) h = ground (arith, exists-find p xs)

  pub find-append_new :
      (p : A → Bool) (xs : List A) (x : A)
      → exists p xs ≡ false
      → p x ≡ true
      → find p (xs ++ x ∷ []) ≡ some x
  unfolding find exists
  find-append_new p [] x h hit = ground arith
  find-append_new p (y ∷ xs) x h hit = ground (arith, find-append_new p xs x)

  -- Deleting the rows that meet a condition leaves none of them.
  pub exists-select-not :
      (p : A → Bool) (xs : List A) → exists p (select (λ x. not (p x)) xs) ≡ false
  unfolding exists select
  exists-select-not p [] = refl
  exists-select-not p (y ∷ xs) = ground (arith, exists-select-not p xs)

  -- A row that a deletion keeps is there after it.
  pub exists-select :
      (p q : A → Bool) (xs : List A)
      → ((x : A) → p x ≡ true → q x ≡ true)
      → exists p (select q xs) ≡ exists p xs
  unfolding exists select
  exists-select p q [] h = refl
  exists-select p q (y ∷ xs) h = ground (arith, h y, exists-select p q xs h)

  pub find-select :
      (p q : A → Bool) (xs : List A)
      → ((x : A) → p x ≡ true → q x ≡ true)
      → find p (select q xs) ≡ find p xs
  unfolding find select
  find-select p q [] h = refl
  find-select p q (y ∷ xs) h = ground (arith, h y, find-select p q xs h)

  -- An update that does not touch what the condition reads.
  pub exists-update :
      (p q : A → Bool) (f : A → A) (xs : List A)
      → ((x : A) → p (f x) ≡ p x)
      → exists p (update q f xs) ≡ exists p xs
  unfolding exists update
  exists-update p q f [] h = refl
  exists-update p q f (y ∷ xs) h = ground (arith, h y, exists-update p q f xs h)

  pub find-update_self :
      (p : A → Bool) (f : A → A) (xs : List A) {x : A}
      → ((y : A) → p (f y) ≡ p y)
      → find p xs ≡ some x
      → find p (update p f xs) ≡ some (f x)
  unfolding find update
  find-update_self p f [] same h = cc
  find-update_self p f (y ∷ xs) {x} same h =
      ground (arith, same y, find-update_self p f xs {x = x} same)

module _ {ℓ κ} {A : Type ℓ} (P : A → Type κ) where
  pub All-select : (p : A → Bool) (xs : List A) → All P xs → All P (select p xs)
  unfolding select
  All-select p [] h = tt
  All-select p (x ∷ xs) h = elim (Bool-cases (p x)) [
    | inl stays ↦ rw (stays) (h.0, All-select p xs h.1)
    | inr goes ↦ rw (goes) (All-select p xs h.1)
  ]

  pub All-update :
      (p : A → Bool) (f : A → A) (xs : List A)
      → ((x : A) → P x → P (f x))
      → All P xs
      → All P (update p f xs)
  unfolding update
  All-update p f [] keep h = tt
  All-update p f (x ∷ xs) keep h = elim (Bool-cases (p x)) [
    | inl here ↦ rw (here) (keep x h.0, All-update p f xs keep h.1)
    | inr other ↦ rw (other) (h.0, All-update p f xs keep h.1)
  ]

module _ {ℓ κ μ} {A : Type ℓ} (P : A → Type κ) (Q : A → Type μ) where
  pub All-imp : (xs : List A) → ((x : A) → P x → Q x) → All P xs → All Q xs
  All-imp [] imp h = tt
  All-imp (x ∷ xs) imp h = (imp x h.0, All-imp xs imp h.1)

  -- Of the rows that are left, what holds of them may use why they are left.
  pub All-select_imp :
      (p : A → Bool) (xs : List A)
      → ((x : A) → p x ≡ true → P x → Q x)
      → All P xs
      → All Q (select p xs)
  unfolding select
  All-select_imp p [] imp h = tt
  All-select_imp p (x ∷ xs) imp h = elim (Bool-cases (p x)) [
    | inl stays ↦ rw stays (imp x stays h.0, All-select_imp p xs imp h.1)
    | inr goes ↦ rw goes (All-select_imp p xs imp h.1)
  ]
