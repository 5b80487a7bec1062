-- ===== src/Text/Trim.antt =====
-- Laws of trimming.
use ppgram.Prelude.{
  append-ne-nil, ℕ, ◌≡◌, refl, [], ◌∷◌, Bool, true, false, not, GoString, is_empty, all, arith,
  Bool-cases, ◌&&◌, ◌≢◌, ◌++◌, All, subst, is_empty_iff, inl, inr,
}
use ppgram.Text.{trim_left, trim_right, trim_func, trim_space, is_space}

-- What is empty or starts with a code point that is not cut off.
abbrev pub StartsKept : (ℕ → Bool) → GoString → Type 0
StartsKept p [] = Unit {0}
StartsKept p (c ∷ s) = p c ≡ false

module _ (p : ℕ → Bool) where
  pub trim_left-StartsKept : (s : GoString) → StartsKept p (trim_left p s)
  unfolding trim_left
  trim_left-StartsKept [] = tt
  trim_left-StartsKept (c ∷ s) = elim (Bool-cases (p c)) [
    | inl cut ↦ rw cut (trim_left-StartsKept s)
    | inr kept ↦ rw kept kept
  ]

  pub trim_left_fixed : (s : GoString) → StartsKept p s → trim_left p s ≡ s
  unfolding trim_left
  trim_left_fixed [] h = refl
  trim_left_fixed (c ∷ s) h = rw h

  pub trim_right-StartsKept : (s : GoString) → StartsKept p s → StartsKept p (trim_right p s)
  unfolding trim_right
  trim_right-StartsKept [] h = tt
  trim_right-StartsKept (c ∷ s) h = ground arith

  pub trim_right_idem : (s : GoString) → trim_right p (trim_right p s) ≡ trim_right p s
  unfolding trim_right
  trim_right_idem [] = refl
  trim_right_idem (c ∷ s) = ground (arith, trim_right_idem s)

  pub trim_func_idem : (s : GoString) → trim_func p (trim_func p s) ≡ trim_func p s
  unfolding trim_func
  trim_func_idem s =
      rw
        (trim_left_fixed (trim_right p (trim_left p s))
          (trim_right-StartsKept (trim_left p s) (trim_left-StartsKept s)))
        (trim_right_idem (trim_left p s))

  pub trim_func-StartsKept : (s : GoString) → StartsKept p (trim_func p s)
  unfolding trim_func
  trim_func-StartsKept s = trim_right-StartsKept (trim_left p s) (trim_left-StartsKept s)

  pub trim_right_of_all : (s : GoString) → all (λ c. not (p c)) s ≡ true → trim_right p s ≡ s
  unfolding trim_right all
  trim_right_of_all [] h = refl
  trim_right_of_all (c ∷ s) h = ground (arith, trim_right_of_all s)

  -- A text with nothing to cut off anywhere is left alone.
  pub trim_func_of_all : (s : GoString) → all (λ c. not (p c)) s ≡ true → trim_func p s ≡ s
  unfolding trim_func trim_left all
  trim_func_of_all [] h = refl
  trim_func_of_all (c ∷ s) h = ground (arith, trim_right_of_all (c ∷ s))

-- A text that trimming leaves alone, by its two ends.
abbrev pub Kept : (ℕ → Bool) → GoString → Type 0
Kept p s = StartsKept p s × (trim_right p s ≡ s)

module _ (p : ℕ → Bool) where
  pub trim_func_of_Kept : (s : GoString) → Kept p s → trim_func p s ≡ s
  unfolding trim_func
  trim_func_of_Kept s (starts, ends) = rw (trim_left_fixed p s starts) ends

  pub trim_func-Kept : (s : GoString) → Kept p (trim_func p s)
  unfolding trim_func
  trim_func-Kept s = (trim_func-StartsKept p s, trim_right_idem p (trim_left p s))

  pub Kept-of_fixed : (s : GoString) → trim_func p s ≡ s → Kept p s
  Kept-of_fixed s e = subst (Kept p) e (trim_func-Kept s)

  StartsKept-append : (s t : GoString) → s ≢ [] → StartsKept p s → StartsKept p (s ++ t)
  StartsKept-append [] t some h = absurd (some refl)
  StartsKept-append (c ∷ s) t some h = h

  pub trim_right-append :
      (s t : GoString) → t ≢ [] → trim_right p t ≡ t → trim_right p (s ++ t) ≡ s ++ t
  unfolding trim_right
  trim_right-append [] t some h = h
  trim_right-append (c ∷ s) t some h =
      rw (trim_right-append s t some h)
        (ground (arith, is_empty_iff (s ++ t), append-ne-nil s t some))

  -- A text in between two that are kept, not the last of them empty.
  pub Kept-append :
      (s t : GoString) → s ≢ [] → t ≢ [] → StartsKept p s → trim_right p t ≡ t → Kept p (s ++ t)
  Kept-append s t some_s some_t starts ends =
      (StartsKept-append s t some_s starts, trim_right-append s t some_t ends)

  pub Kept-of_all : (s : GoString) → all (λ c. not (p c)) s ≡ true → Kept p s
  Kept-of_all s h = Kept-of_fixed s (trim_func_of_all p s h)

  module _ {κ} (P : ℕ → Type κ) where
    All-trim_left : (s : GoString) → All P s → All P (trim_left p s)
    unfolding trim_left
    All-trim_left [] h = tt
    All-trim_left (c ∷ s) h = elim (Bool-cases (p c)) [
      | inl cut ↦ rw cut (All-trim_left s h.1)
      | inr kept ↦ rw kept h
    ]

    All-trim_right : (s : GoString) → All P s → All P (trim_right p s)
    unfolding trim_right
    All-trim_right [] h = tt
    All-trim_right (c ∷ s) h = elim (Bool-cases (is_empty (trim_right p s) && p c)) [
      | inl cut ↦ rw cut tt
      | inr kept ↦ rw kept (h.0, All-trim_right s h.1)
    ]

    pub All-trim_func : (s : GoString) → All P s → All P (trim_func p s)
    unfolding trim_func
    All-trim_func s h = All-trim_right (trim_left p s) (All-trim_left s h)

pub trim_space_idem : (s : GoString) → trim_space (trim_space s) ≡ trim_space s
unfolding trim_space
trim_space_idem s = trim_func_idem is_space s

pub trim_space_of_all : (s : GoString) → all (λ c. not (is_space c)) s ≡ true → trim_space s ≡ s
unfolding trim_space
trim_space_of_all s h = trim_func_of_all is_space s h
