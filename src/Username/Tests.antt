-- ===== src/Username/Tests.antt =====
-- Runs of utils/username.go, and its theorems at concrete inputs.
use ppgram.Prelude.{ℕ, ◌≤◌, true, false, ◌≡◌, ◌↔◌, refl, arith, codes}
use ppgram.Text.{to_lower_rune}
use ppgram.Username.{normalize_username, valid_byte, valid_bytes, last_byte, valid_username}
use ppgram.Username.Grammar.{Username, valid_username_iff}
use ppgram.Username.Normal.{normalize_username_idem}

good : valid_username (codes "a_1") ≡ true
unfolding valid_username valid_bytes valid_byte last_byte
good = refl

trailing : valid_username (codes "a_") ≡ false
unfolding valid_username valid_bytes valid_byte last_byte
trailing = refl

valid_username_iff_example : (valid_username (codes "a_1") ≡ true) ↔ Username (codes "a_1")
valid_username_iff_example = valid_username_iff (codes "a_1")

-- A table that leaves everything above ASCII as it is.
lower_idem : (c : ℕ) → 128 ≤ c → to_lower_rune (λ d. d) c ≡ c
unfolding to_lower_rune
lower_idem c h = ground arith

normalized_twice :
    normalize_username (λ d. d) (normalize_username (λ d. d) (codes " Anna "))
    ≡ normalize_username (λ d. d) (codes " Anna ")
normalized_twice = normalize_username_idem (λ d. d) lower_idem (λ c h. refl) (codes " Anna ")
