-- ===== src/Username.antt =====
-- utils/username.go. The table of `unicode.ToLower` above ASCII is the argument `lower_high`.
pub mod Grammar
pub mod Normal
mod Tests
use ppgram.Prelude.{
  ℕ, [], ◌∷◌, Bool, true, false, ◌&&◌, ◌||◌, not, leb, ◌==◌, GoString, if◌then◌else◌,
}
use ppgram.Text.{trim_space, to_lower}

unfoldable pub normalize_username : (ℕ → ℕ) → GoString → GoString
normalize_username lower_high username = to_lower lower_high (trim_space username)

-- The test of the loop of `ValidUsername` on one byte.
unfoldable pub valid_byte : ℕ → Bool
valid_byte ch =
    let is_lower_ascii = leb b'a' ch && leb ch b'z' in
    let is_digit = leb b'0' ch && leb ch b'9' in is_lower_ascii || is_digit || ch == b'_'

-- The loop of `ValidUsername`.
unfoldable pub valid_bytes : GoString → Bool
unfolding valid_byte
valid_bytes [] = true
valid_bytes (ch ∷ rest) = if valid_byte ch then valid_bytes rest else false

-- `username[len(username)-1]` of `first ∷ rest`
unfoldable pub last_byte : ℕ → GoString → ℕ
last_byte first [] = first
last_byte first (ch ∷ rest) = last_byte ch rest

-- A code point above ASCII is written with bytes above ASCII alone, so that the tests on bytes and
-- those on code points agree.
unfoldable pub valid_username : GoString → Bool
valid_username [] = false
valid_username (first ∷ rest) =
    if first == b'_' || last_byte first rest == b'_' then false else valid_bytes (first ∷ rest)
