-- ===== src/Username/Normal.antt =====
-- utils/username.go: valid usernames and normalisation.
use ppgram.Prelude.{
  ℕ, ◌≤◌, ◌≡◌, refl, [], ◌∷◌, Bool, true, false, not, GoString, All, arith, all, map, is_empty, ◌+◌,
}
use ppgram.Text.{is_space, trim_left, trim_right, trim_func, trim_space, to_lower_rune, to_lower}
use ppgram.Text.Trim.{trim_space_of_all, trim_space_idem}
use ppgram.Username.{valid_username, normalize_username}
use ppgram.Username.Grammar.{IsWord, valid_bytes_iff}

word-no_space : (c : ℕ) → IsWord c → is_space c ≡ false
unfolding is_space
word-no_space c h = ground arith

word-to_lower : (lower_high : ℕ → ℕ) (c : ℕ) → IsWord c → to_lower_rune lower_high c ≡ c
unfolding to_lower_rune
word-to_lower lower_high c h = ground arith

words-no_space : (s : GoString) → All IsWord s → all (λ c. not (is_space c)) s ≡ true
unfolding all
words-no_space [] h = refl
words-no_space (c ∷ s) (w, h) = rw (word-no_space c w) (words-no_space s h)

words-to_lower : (lower_high : ℕ → ℕ) (s : GoString) → All IsWord s → to_lower lower_high s ≡ s
unfolding to_lower
words-to_lower lower_high [] h = refl
words-to_lower lower_high (c ∷ s) (w, h) =
    cc (word-to_lower lower_high c w, words-to_lower lower_high s h)

valid_username-words : (s : GoString) → valid_username s ≡ true → All IsWord s
unfolding valid_username
valid_username-words [] h = tt
valid_username-words (c ∷ s) h = (valid_bytes_iff (c ∷ s)).0 (ground arith)

-- Trimming leaves a valid username alone.
pub trim_space_of_valid : (s : GoString) → valid_username s ≡ true → trim_space s ≡ s
trim_space_of_valid s h = trim_space_of_all s (words-no_space s (valid_username-words s h))

-- Normalising leaves a valid username alone, whatever the case table does above ASCII.
pub normalize_username_of_valid :
    (lower_high : ℕ → ℕ) (s : GoString)
    → valid_username s ≡ true
    → normalize_username lower_high s ≡ s
unfolding normalize_username
normalize_username_of_valid lower_high s h =
    rw (trim_space_of_valid s h) (words-to_lower lower_high s (valid_username-words s h))

upper-space : (c : ℕ) → 65 ≤ c → c ≤ 90 → is_space (c + 32) ≡ is_space c
unfolding is_space
upper-space c h k = ground arith

-- Mapping by a function that keeps the tested property goes past trimming.
module _ (p : ℕ → Bool) (f : ℕ → ℕ) (keeps : (c : ℕ) → p (f c) ≡ p c) where
  trim_left-map : (s : GoString) → trim_left p (map f s) ≡ map f (trim_left p s)
  unfolding trim_left
  trim_left-map [] = refl
  trim_left-map (c ∷ s) = ground (arith, keeps c, trim_left-map s)

  is_empty-map : (s : GoString) → is_empty (map f s) ≡ is_empty s
  unfolding is_empty
  is_empty-map [] = refl
  is_empty-map (c ∷ s) = refl

  trim_right-map : (s : GoString) → trim_right p (map f s) ≡ map f (trim_right p s)
  unfolding trim_right
  trim_right-map [] = refl
  trim_right-map (c ∷ s) = ground (arith, keeps c, trim_right-map s, is_empty-map (trim_right p s))

  trim_func-map : (s : GoString) → trim_func p (map f s) ≡ map f (trim_func p s)
  unfolding trim_func
  trim_func-map s = rw (trim_left-map s) (trim_right-map (trim_left p s))

-- What the table of `unicode.ToLower` above ASCII is relied on for: it gives lower case, and keeps
-- white space and only that white space.
module _ (lower_high : ℕ → ℕ)
    (lower_idem : (c : ℕ) → 128 ≤ c → to_lower_rune lower_high (lower_high c) ≡ lower_high c)
    (lower_space : (c : ℕ) → 128 ≤ c → is_space (lower_high c) ≡ is_space c) where
  is_space-to_lower_rune : (c : ℕ) → is_space (to_lower_rune lower_high c) ≡ is_space c
  unfolding to_lower_rune
  is_space-to_lower_rune c = ground (arith, upper-space c, lower_space c)

  to_lower_rune_idem :
      (c : ℕ) → to_lower_rune lower_high (to_lower_rune lower_high c) ≡ to_lower_rune lower_high c
  unfolding to_lower_rune
  to_lower_rune_idem c = ground (arith, lower_idem c)

  to_lower_idem :
      (s : GoString) → to_lower lower_high (to_lower lower_high s) ≡ to_lower lower_high s
  unfolding to_lower
  to_lower_idem [] = refl
  to_lower_idem (c ∷ s) = cc (to_lower_rune_idem c, to_lower_idem s)

  -- Normalising a username a second time changes nothing, if the case table of Unicode maps to
  -- lower case and takes no character above ASCII into white space or out of it.
  pub normalize_username_idem :
      (s : GoString)
      → normalize_username lower_high (normalize_username lower_high s)
        ≡ normalize_username lower_high s
  unfolding normalize_username trim_space to_lower
  normalize_username_idem s =
      rw
        (
          trim_func-map is_space (to_lower_rune lower_high) is_space-to_lower_rune (trim_space s),
          trim_space_idem s,
        )
        (to_lower_idem (trim_space s))
