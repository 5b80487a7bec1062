-- ===== src/Text/Split.antt =====
-- Laws of splitting and joining.
use ppgram.Prelude.{
  ℕ, ◌≡◌, ◌≢◌, refl, ap, List, [], ◌∷◌, GoString, arith, Bool-cases, inl, inr, ◌==◌, All, ◌++◌, ◌∙◌,
}
use ppgram.Text.{split, join, cons_head}

pub split-ne-nil : (sep : ℕ) (s : GoString) → split sep s ≢ []
unfolding split cons_head
split-ne-nil sep [] = ground arith
split-ne-nil sep (c ∷ s) = ground (arith, split-ne-nil sep s)

join-cons_nil :
    (sep : ℕ) (parts : List GoString) → parts ≢ [] → join sep ([] ∷ parts) ≡ sep ∷ join sep parts
unfolding join
join-cons_nil sep [] h = absurd (h refl)
join-cons_nil sep (part ∷ parts) h = refl

join-cons_head :
    (sep c : ℕ) (parts : List GoString)
    → parts ≢ []
    → join sep (cons_head c parts) ≡ c ∷ join sep parts
unfolding join cons_head
join-cons_head sep c [] h = absurd (h refl)
join-cons_head sep c (part ∷ []) h = refl
join-cons_head sep c (part ∷ next ∷ parts) h = refl

-- Joining the parts gives the text back.
pub join-split : (sep : ℕ) (s : GoString) → join sep (split sep s) ≡ s
unfolding split
join-split sep [] = unfold join in refl
join-split sep (c ∷ s) = elim (Bool-cases (c == sep)) [
  | inl here ↦
      rw (here, join-cons_nil sep (split sep s) (split-ne-nil sep s), join-split sep s)
        (ap (λ x. x ∷ s) (ground arith))
  | inr other ↦
      rw (other, join-cons_head sep c (split sep s) (split-ne-nil sep s), join-split sep s)
]

-- A text without the separator.
abbrev pub Without : ℕ → GoString → Type 0
Without sep s = All (λ c. c ≢ sep) s

cons_head-Without :
    (sep c : ℕ) (parts : List GoString)
    → c ≢ sep
    → All (Without sep) parts
    → All (Without sep) (cons_head c parts)
unfolding cons_head
cons_head-Without sep c [] ne h = ((ne, tt), tt)
cons_head-Without sep c (part ∷ parts) ne h = ((ne, h.0), h.1)

-- The parts do not have the separator in them.
pub split-Without : (sep : ℕ) (s : GoString) → All (Without sep) (split sep s)
unfolding split
split-Without sep [] = (tt, tt)
split-Without sep (c ∷ s) = elim (Bool-cases (c == sep)) [
  | inl here ↦ rw here (tt, split-Without sep s)
  | inr other ↦
      rw other (cons_head-Without sep c (split sep s) (ground arith) (split-Without sep s))
]

split-part : (sep : ℕ) (part : GoString) → Without sep part → split sep part ≡ part ∷ []
unfolding split cons_head
split-part sep [] h = refl
split-part sep (c ∷ part) h = ground (arith, split-part sep part h.1)

split-append :
    (sep : ℕ) (part s : GoString)
    → Without sep part
    → split sep (part ++ sep ∷ s) ≡ part ∷ split sep s
unfolding split cons_head
split-append sep [] s h = ground arith
split-append sep (c ∷ part) s h = ground (arith, split-append sep part s h.1)

-- Splitting finds the parts that were joined.
pub split-join :
    (sep : ℕ) (parts : List GoString)
    → parts ≢ []
    → All (Without sep) parts
    → split sep (join sep parts) ≡ parts
unfolding join
split-join sep [] some h = absurd (some refl)
split-join sep (part ∷ []) some h = split-part sep part h.0
split-join sep (part ∷ next ∷ parts) some h =
    split-append sep part (join sep (next ∷ parts)) h.0
    ∙ ap (λ (l : List GoString). part ∷ l) (split-join sep (next ∷ parts) (ground arith) h.1)
