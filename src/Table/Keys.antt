-- ===== src/Table/Keys.antt =====
-- Unique indexes: no two rows have the same key.
use ppgram.Prelude.{
  Bool, true, false, not, ◌&&◌, List, [], ◌∷◌, ◌++◌, ◌≡◌, ◌↔◌, refl, arith, Bool-cases, inl, inr,
  ◌∙◌,
}
use ppgram.Table.{select, update, exists}

-- No two rows have the same key.
abbrev pub Distinct {ℓ κ} : {A : Type ℓ} {K : Type κ} → (K → K → Bool) → (A → K) → List A → Type 0
Distinct eq k [] = Unit {0}
Distinct eq k (x ∷ xs) = (exists (λ y. eq (k y) (k x)) xs ≡ false) × Distinct eq k xs

module _ {ℓ κ} {A : Type ℓ} {K : Type κ} (eq : K → K → Bool)
    (eq_iff : (a b : K) → (eq a b ≡ true) ↔ (a ≡ b)) (k : A → K) where
  eq_comm : (a b : K) → eq a b ≡ eq b a
  eq_comm a b = ground (arith, eq_iff a b, eq_iff b a)

  exists-append_ne :
      (b : K) (xs : List A) (x : A)
      → exists (λ y. eq (k y) b) xs ≡ false
      → eq (k x) b ≡ false
      → exists (λ y. eq (k y) b) (xs ++ x ∷ []) ≡ false
  unfolding exists
  exists-append_ne b [] x h ne = ground arith
  exists-append_ne b (y ∷ xs) x h ne = ground (arith, exists-append_ne b xs x)

  -- A row with a new key.
  pub Distinct-append :
      (xs : List A) (x : A)
      → Distinct eq k xs
      → exists (λ y. eq (k y) (k x)) xs ≡ false
      → Distinct eq k (xs ++ x ∷ [])
  unfolding exists
  Distinct-append [] x h new = (refl, tt)
  Distinct-append (y ∷ xs) x h new = (
    exists-append_ne (k y) xs x h.0 (ground (arith, eq_comm (k x) (k y))),
    Distinct-append xs x h.1 (ground arith),
  )

  exists-select-false :
      (p q : A → Bool) (xs : List A) → exists q xs ≡ false → exists q (select p xs) ≡ false
  unfolding exists select
  exists-select-false p q [] h = refl
  exists-select-false p q (y ∷ xs) h = ground (arith, exists-select-false p q xs)

  pub Distinct-select :
      (p : A → Bool) (xs : List A) → Distinct eq k xs → Distinct eq k (select p xs)
  unfolding select
  Distinct-select p [] h = tt
  Distinct-select p (x ∷ xs) h = elim (Bool-cases (p x)) [
    | inl stays ↦ rw (stays) (exists-select-false p _ xs h.0, Distinct-select p xs h.1)
    | inr goes ↦ rw (goes) (Distinct-select p xs h.1)
  ]

  module _ (p : A → Bool) (f : A → A) where
    exists-update_key :
        (b : K) (xs : List A)
        → ((x : A) → k (f x) ≡ k x)
        → exists (λ y. eq (k y) b) (update p f xs) ≡ exists (λ y. eq (k y) b) xs
    unfolding exists update
    exists-update_key b [] same = refl
    exists-update_key b (y ∷ xs) same = ground (arith, same y, exists-update_key b xs same)

    -- An update that leaves the key alone.
    pub Distinct-update :
        (xs : List A) → ((x : A) → k (f x) ≡ k x) → Distinct eq k xs → Distinct eq k (update p f xs)
    unfolding update
    Distinct-update [] same h = tt
    Distinct-update (x ∷ xs) same h = elim (Bool-cases (p x)) [
      | inl here ↦
          rw here (rw (same x) (exists-update_key (k x) xs same ∙ h.0), Distinct-update xs same h.1)
      | inr other ↦ rw other (exists-update_key (k x) xs same ∙ h.0, Distinct-update xs same h.1)
    ]

    update_nowhere : (xs : List A) → exists p xs ≡ false → update p f xs ≡ xs
    unfolding update exists
    update_nowhere [] h = refl
    update_nowhere (x ∷ xs) h = ground (arith, update_nowhere xs)

  -- An update that writes the key `b` into the one row that it concerns, where no other row has it.
  -- That there is one row at most comes from another unique index, by the key `j`.
  module _ {μ} {J : Type μ} (eq_j : J → J → Bool)
      (eq_j_iff : (a c : J) → (eq_j a c ≡ true) ↔ (a ≡ c)) (j : A → J) where
    abbrev others : J → K → A → Bool
    others d b y = eq (k y) b && not (eq_j (j y) d)

    others_only :
        (d : J) (b : K) (xs : List A)
        → exists (λ y. eq_j (j y) d) xs ≡ false
        → exists (λ y. eq (k y) b) xs ≡ exists (others d b) xs
    unfolding exists
    others_only d b [] h = refl
    others_only d b (y ∷ xs) h = ground (arith, others_only d b xs)

    exists-update_one :
        (f : A → A) (d : J) (b c : K) (xs : List A)
        → ((x : A) → k (f x) ≡ b)
        → eq c b ≡ false
        → exists (λ y. eq (k y) c) xs ≡ false
        → exists (λ y. eq (k y) c) (update (λ y. eq_j (j y) d) f xs) ≡ false
    unfolding exists update
    exists-update_one f d b c [] writes ne h = refl
    exists-update_one f d b c (y ∷ xs) writes ne h =
        ground (arith, writes y, eq_comm c b, exists-update_one f d b c xs writes)

    others-tail :
        (d : J) (b : K) (x : A) (xs : List A)
        → exists (others d b) (x ∷ xs) ≡ false
        → exists (others d b) xs ≡ false
    unfolding exists
    others-tail d b x xs h = ground arith

    others-head :
        (d : J) (b : K) (x : A) (xs : List A)
        → eq_j (j x) d ≡ false
        → exists (others d b) (x ∷ xs) ≡ false
        → eq (k x) b ≡ false
    unfolding exists
    others-head d b x xs other h = ground arith

    pub Distinct-update_one :
        (f : A → A) (d : J) (b : K) (xs : List A)
        → ((x : A) → k (f x) ≡ b)
        → exists (others d b) xs ≡ false
        → Distinct eq_j j xs
        → Distinct eq k xs
        → Distinct eq k (update (λ y. eq_j (j y) d) f xs)
    unfolding update
    Distinct-update_one f d b [] writes new one h = tt
    Distinct-update_one f d b (x ∷ xs) writes new one h = elim (Bool-cases (eq_j (j x) d)) [
      | inl here ↦
          let only : exists (λ y. eq_j (j y) d) xs ≡ false =
            rw (← (eq_j_iff (j x) d).0 here) one.0 in
          rw (here, update_nowhere (λ y. eq_j (j y) d) f xs only)
            (rw (writes x) (others_only d b xs only ∙ others-tail d b x xs new), h.1)
      | inr other ↦ rw other (
        exists-update_one f d b (k x) xs writes (others-head d b x xs other new) h.0,
        Distinct-update_one f d b xs writes (others-tail d b x xs new) one.1 h.1,
      )
    ]
