-- ===== src/Username/Grammar.antt =====
-- `ValidUsername` against a grammar of usernames.
use ppgram.Prelude.{
  ℕ, ◌≤◌, ◌≡◌, ◌≢◌, ◌↔◌, ◌⊎◌, inl, refl, ap, [], ◌∷◌, ◌++◌, true, GoString, All, All-append, arith,
}
use ppgram.Username.{valid_byte, valid_bytes, last_byte, valid_username}

-- A lower case ASCII letter or a digit.
abbrev pub IsAlnum : ℕ → Type 0
IsAlnum c = ((b'a' ≤ c) × (c ≤ b'z')) ⊎ ((b'0' ≤ c) × (c ≤ b'9'))

abbrev pub IsWord : ℕ → Type 0
IsWord c = IsAlnum c ⊎ (c ≡ b'_')

-- [a-z0-9]([a-z0-9_]*[a-z0-9])?
pub data Username : GoString → Type 0 where
  single : {c : ℕ} → IsAlnum c → Username (c ∷ [])
  longer :
      {first : ℕ} (last : ℕ) (middle : GoString) {rest : GoString}
      → IsAlnum first
      → All IsWord middle
      → IsAlnum last
      → rest ≡ middle ++ last ∷ []
      → Username (first ∷ rest)

valid_byte_iff : (c : ℕ) → (valid_byte c ≡ true) ↔ IsWord c
unfolding valid_byte
valid_byte_iff c = (λ h. ground arith, λ h. ground arith)

pub valid_bytes_iff : (s : GoString) → (valid_bytes s ≡ true) ↔ All IsWord s
unfolding valid_bytes
valid_bytes_iff [] = (λ h. tt, λ h. refl)
valid_bytes_iff (c ∷ s) = (
  λ h. ground (arith, (valid_byte_iff c).0, (valid_bytes_iff s).0),
  λ h. ground (arith, (valid_byte_iff c).1 h.0, (valid_bytes_iff s).1 h.1),
)

last_byte-append : (c d : ℕ) (s : GoString) → last_byte c (s ++ d ∷ []) ≡ d
unfolding last_byte
last_byte-append c d [] = refl
last_byte-append c d (e ∷ s) = last_byte-append e d s

-- A text with words only ends in its last byte, with words before it.
split_last :
    (c : ℕ) (s : GoString)
    → All IsWord (c ∷ s)
    → last_byte c s ≢ b'_'
    → (middle : GoString) × (c ∷ s ≡ middle ++ last_byte c s ∷ [])
      × All IsWord middle
      × IsAlnum (last_byte c s)
unfolding last_byte
split_last c [] h k = ([], refl, tt, ground arith)
split_last c (d ∷ s) h k =
    let (middle, e, words, last) = split_last d s h.1 k in
    (c ∷ middle, ap (λ (t : GoString). c ∷ t) e, (h.0, words), last)

valid_username-cons :
    (c : ℕ) (s : GoString)
    → (valid_username (c ∷ s) ≡ true) ↔ ((c ≢ b'_') × (last_byte c s ≢ b'_') × All IsWord (c ∷ s))
unfolding valid_username
valid_username-cons c s = (
  λ h. (ground arith, ground arith, (valid_bytes_iff (c ∷ s)).0 (ground arith)),
  λ (p, q, w). ground (arith, (valid_bytes_iff (c ∷ s)).1 w),
)

-- A last byte that is a letter or digit, after words.
append-words :
    (middle : GoString) (last : ℕ)
    → All IsWord middle
    → IsAlnum last
    → All IsWord (middle ++ last ∷ [])
append-words middle last w a = All-append IsWord middle (last ∷ []) w (inl a, tt)

valid_username_sound : (s : GoString) → valid_username s ≡ true → Username s
valid_username_sound [] h = unfold valid_username in cc
valid_username_sound (c ∷ []) h =
    let (first, last, words) = (valid_username-cons c []).0 h in single (ground arith)
valid_username_sound (c ∷ d ∷ s) h =
    let (first, final, words) = (valid_username-cons c (d ∷ s)).0 h in
    let (middle, e, w, last) = split_last d s words.1 (unfold last_byte in final) in
    longer _ middle (ground arith) w last e

valid_username_complete : {s : GoString} → Username s → valid_username s ≡ true
valid_username_complete (single {c} a) =
    (valid_username-cons c []).1 (unfold last_byte in (ground arith, ground arith, (inl a, tt)))
valid_username_complete (longer {first} last middle a w b e) = (valid_username-cons first _).1 (
  ground arith,
  rw (e, last_byte-append first last middle) (ground arith),
  (inl a, rw e (append-words middle last w b)),
)

-- ValidUsername accepts exactly the texts that match [a-z0-9]([a-z0-9_]*[a-z0-9])?.
pub valid_username_iff : (s : GoString) → (valid_username s ≡ true) ↔ Username s
valid_username_iff s = (valid_username_sound s, valid_username_complete)
