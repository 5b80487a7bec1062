-- ===== src/Password/Verify.antt =====
-- `hashPassword` and `verifyPassword` of server/auth/auth.go on the same text.
use ppgram.Prelude.{
  ℕ, ◌%◌, ◌^◌, Bool, true, false, not, ◌&&◌, ◌==◌, List, [], ◌∷◌, some, GoString, codes, ◌≡◌, refl,
  ap, ◌∙◌, arith, ◌=s=◌, str_eq_refl, All, is_empty, length,
}
use mathlib.Core.Option
use ppgram.Text.{split, join, is_space}
use ppgram.Text.Split.{split-join, Without}
use ppgram.Errors.{ok}
use ppgram.Password.{
  Crypto, decimal, print_digits, scan_params, scan_literal, scan_uint, scan_field, scan_number,
  scan_digits, is_digit, skip_space, encode_hash, base64_encode, verify_decoded, verify_parts,
  verify_password, iterations, memory, parallelism, key_len,
}
use ppgram.Password.Base64.{IsByte, base64_decode-base64_encode, base64_encode-Without}

abbrev params_text : GoString
params_text = codes "m=65536,t=3,p=2"

-- The parts of the text between the dollar signs.
abbrev hash_parts : List ℕ → List ℕ → List GoString
hash_parts salt hash =
    []
    ∷ codes "argon2id"
    ∷ codes "v=19"
    ∷ params_text
    ∷ base64_encode salt
    ∷ base64_encode hash
    ∷ []

encode_hash-join : (salt hash : List ℕ) → encode_hash salt hash ≡ join 36 (hash_parts salt hash)
unfolding encode_hash join decimal print_digits
encode_hash-join salt hash = refl

scan_params-params_text : scan_params params_text ≡ some (65536, 3, 2)
unfolding scan_params scan_literal scan_uint scan_field scan_number scan_digits is_digit skip_space
    Option.bind is_space
scan_params-params_text = refl

abbrev all_not_dollar : GoString → Bool
all_not_dollar [] = true
all_not_dollar (c ∷ s) = not (c == 36) && all_not_dollar s

length-is_empty : (s : List ℕ) → length s ≡ 32 → is_empty s ≡ false
unfolding is_empty
length-is_empty [] h = absurd (omega arith)
length-is_empty (c ∷ s) h = refl

all-Without : (s : GoString) → all_not_dollar s ≡ true → Without 36 s
all-Without [] h = tt
all-Without (c ∷ s) h = (ground arith, all-Without s (ground arith))

hash_parts-Without : (salt hash : List ℕ) → All (Without 36) (hash_parts salt hash)
hash_parts-Without salt hash = (
  tt,
  (
    all-Without (codes "argon2id") refl,
    (
      all-Without (codes "v=19") refl,
      (
        all-Without params_text refl,
        (base64_encode-Without salt, (base64_encode-Without hash, tt)),
      ),
    ),
  ),
)

-- The text of a hash is taken apart into what it was made of.
split-encode_hash : (salt hash : List ℕ) → split 36 (encode_hash salt hash) ≡ hash_parts salt hash
split-encode_hash salt hash =
    ap (split 36) (encode_hash-join salt hash)
    ∙ split-join 36 (hash_parts salt hash) (λ h. ground arith) (hash_parts-Without salt hash)

pub verify_password-encode_hash :
    (crypto : Crypto) (password : GoString) (salt hash : List ℕ)
    → All IsByte salt
    → All IsByte hash
    → is_empty hash ≡ false
    → verify_password crypto password (encode_hash salt hash)
      ≡ ok (
          crypto.argon2 password salt iterations memory parallelism (length hash % 2 ^ 32) =s= hash)
unfolding verify_password verify_parts verify_decoded
verify_password-encode_hash crypto password salt hash bytes hash_bytes some_hash =
    rw
      (
        split-encode_hash salt hash,
        str_eq_refl (codes "argon2id"),
        str_eq_refl (codes "v=19"),
        scan_params-params_text,
        base64_decode-base64_encode salt bytes,
        base64_decode-base64_encode hash hash_bytes,
        some_hash,
      )
      refl

-- For a key derivation that gives as many bytes as it is asked for, the text that hashPassword
-- makes of a password and any salt of bytes is accepted by verifyPassword for the same password.
pub verify_password-hash_password :
    (crypto : Crypto) (password : GoString) (salt : List ℕ)
    → ((p : GoString) (s : List ℕ) (t m q n : ℕ)
        → All IsByte (crypto.argon2 p s t m q n) × (length (crypto.argon2 p s t m q n) ≡ n))
    → All IsByte salt
    → verify_password crypto password
        (encode_hash salt (crypto.argon2 password salt iterations memory parallelism key_len))
      ≡ ok true
verify_password-hash_password crypto password salt argon2_lem bytes =
    let hash = crypto.argon2 password salt iterations memory parallelism key_len in
    let (hash_bytes, hash_length) =
      argon2_lem password salt iterations memory parallelism key_len in
    verify_password-encode_hash crypto password salt hash bytes hash_bytes
      (length-is_empty hash hash_length)
    ∙ ap (λ n. ok (crypto.argon2 password salt iterations memory parallelism (n % 2 ^ 32) =s= hash))
        hash_length
    ∙ ap (λ t. ok t) (str_eq_refl hash)
