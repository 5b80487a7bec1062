-- ===== src/Password.antt =====
-- server/auth/auth.go: `hashPassword`, `verifyPassword` and the session tokens. The functions of
-- other packages, argon2.IDKey and sha256.Sum256, are fields of a record.
pub mod Base64
pub mod Verify
mod Tests
use ppgram.Prelude.{
  ℕ, zero, suc, ◌+◌, ◌*◌, ◌-◌, ◌/◌, ◌%◌, ◌^◌, Bool, true, false, ◌&&◌, ◌||◌, not, List, [], ◌∷◌,
  ◌++◌, Option, none, some, GoString, codes, ltb, leb, ◌==◌, ◌=s=◌, is_empty, length, if◌then◌else◌,
}
use mathlib.Core.Option
use ppgram.Text.{split, is_space}
use ppgram.Backend.{Exec, pure, read_random, ◌>>=◌}
use ppgram.Errors.{Result, ok, err, bad_password_hash}

-- `argon2 password salt iterations memory parallelism key_len`, `sha256` on the bytes of a text, and
-- the table of `unicode.ToLower` above ASCII.
pub record Crypto : Type 0 where
  pub argon2 : GoString → List ℕ → ℕ → ℕ → ℕ → ℕ → List ℕ
  pub sha256 : GoString → List ℕ
  pub lower_high : ℕ → ℕ

abbrev pub memory : ℕ
memory = 64 * 1024

abbrev pub iterations : ℕ
iterations = 3

abbrev pub parallelism : ℕ
parallelism = 2

abbrev pub salt_len : ℕ
salt_len = 16

abbrev pub key_len : ℕ
key_len = 32

-- %d on a number; its own value is fuel enough.
unfoldable pub print_digits : ℕ → ℕ → GoString
print_digits zero n = []
print_digits (suc fuel) n =
    let front = print_digits fuel (n / 10) in
    if ltb n 10 then (b'0' + n) ∷ [] else front ++ (b'0' + n % 10) ∷ []

unfoldable pub decimal : ℕ → GoString
unfolding print_digits
decimal n = print_digits (suc n) n

-- The alphabet of base64.RawStdEncoding.
unfoldable pub base64_char : ℕ → ℕ
base64_char v =
    if ltb v 26
    then b'A' + v
    else if ltb v 52
    then b'a' + (v - 26)
    else if ltb v 62
    then b'0' + (v - 52)
    else if v == 62
    then b'+'
    else b'/'

unfoldable pub base64_value : ℕ → Option ℕ
base64_value c =
    if leb b'A' c && leb c b'Z'
    then some (c - b'A')
    else if leb b'a' c && leb c b'z'
    then some (c - b'a' + 26)
    else if leb b'0' c && leb c b'9'
    then some (c - b'0' + 52)
    else if c == b'+'
    then some 62
    else if c == b'/'
    then some 63
    else none

-- EncodeToString, without padding
unfoldable pub base64_encode : List ℕ → GoString
unfolding base64_char
base64_encode [] = []
base64_encode (a ∷ []) = base64_char (a / 4) ∷ base64_char (a % 4 * 16) ∷ []
base64_encode (a ∷ b ∷ []) =
    base64_char (a / 4) ∷ base64_char (a % 4 * 16 + b / 16) ∷ base64_char (b % 16 * 4) ∷ []
base64_encode (a ∷ b ∷ c ∷ rest) =
    base64_char (a / 4)
    ∷ base64_char (a % 4 * 16 + b / 16)
    ∷ base64_char (b % 16 * 4 + c / 64)
    ∷ base64_char (c % 64)
    ∷ base64_encode rest

abbrev pub cons_value : Option ℕ → Option (List ℕ) → Option (List ℕ)
cons_value none vs = none
cons_value (some v) none = none
cons_value (some v) (some vs) = some (v ∷ vs)

-- The values of the characters; line breaks are passed over.
unfoldable pub base64_values : GoString → Option (List ℕ)
unfolding base64_value
base64_values [] = some []
base64_values (c ∷ s) =
    let rest = base64_values s in
    if c == 10 || c == 13 then rest else cons_value (base64_value c) rest

-- Four values make three bytes; a last group of two or three makes one or two.
unfoldable pub base64_bytes : List ℕ → Option (List ℕ)
base64_bytes [] = some []
base64_bytes (v ∷ []) = none
base64_bytes (v ∷ w ∷ []) = some ((v * 4 + w / 16) ∷ [])
base64_bytes (v ∷ w ∷ x ∷ []) = some ((v * 4 + w / 16) ∷ (w % 16 * 16 + x / 4) ∷ [])
base64_bytes (v ∷ w ∷ x ∷ y ∷ rest) =
    Option.map (λ bs. (v * 4 + w / 16) ∷ (w % 16 * 16 + x / 4) ∷ (x % 4 * 64 + y) ∷ bs)
      (base64_bytes rest)

-- DecodeString
unfoldable pub base64_decode : GoString → Option (List ℕ)
unfolding base64_values base64_bytes
base64_decode s = Option.bind (base64_values s) base64_bytes

-- The characters of a format that stand for themselves.
unfoldable pub scan_literal : GoString → GoString → Option GoString
scan_literal [] s = some s
scan_literal (c ∷ format) [] = none
scan_literal (c ∷ format) (d ∷ s) =
    let rest = scan_literal format s in if c == d then rest else none

-- White space before a number; a line break is an error.
unfoldable pub skip_space : GoString → Option GoString
skip_space [] = some []
skip_space (c ∷ s) =
    let rest = skip_space s in if c == 10 then none else if is_space c then rest else some (c ∷ s)

unfoldable pub is_digit : ℕ → Bool
is_digit c = leb b'0' c && leb c b'9'

-- The digits at the front, with the number that they continue.
unfoldable pub scan_digits : ℕ → GoString → ℕ × GoString
scan_digits n [] = (n, [])
scan_digits n (c ∷ s) =
    let rest = scan_digits (n * 10 + (c - b'0')) s in if is_digit c then rest else (n, c ∷ s)

unfoldable pub scan_number : ℕ → GoString → Option (ℕ × GoString)
scan_number limit [] = none
scan_number limit (c ∷ s) =
    let (n, rest) = scan_digits 0 (c ∷ s) in
    if is_digit c && ltb n limit then some (n, rest) else none

-- %d into an unsigned variable that holds numbers below the limit.
unfoldable pub scan_uint : ℕ → GoString → Option (ℕ × GoString)
scan_uint limit s = Option.bind (skip_space s) (scan_number limit)

-- A literal, then %d.
unfoldable pub scan_field : GoString → ℕ → GoString → Option (ℕ × GoString)
scan_field literal limit s = Option.bind (scan_literal literal s) (scan_uint limit)

-- fmt.Sscanf(s, "m=%d,t=%d,p=%d", …); text behind the numbers is not read.
unfoldable pub scan_params : GoString → Option (ℕ × ℕ × ℕ)
scan_params s = Option.bind (scan_field (codes "m=") (2 ^ 32) s) λ (m, s1).
    Option.bind (scan_field (codes ",t=") (2 ^ 32) s1)
      λ (t, s2). Option.bind (scan_field (codes ",p=") (2 ^ 8) s2) λ (p, s3). some (m, t, p)

-- The text that `hashPassword` returns.
unfoldable pub encode_hash : List ℕ → List ℕ → GoString
unfolding decimal base64_encode
encode_hash salt hash =
    codes "$argon2id$v=19$"
    ++ (codes "m="
        ++ decimal memory
        ++ codes ",t="
        ++ decimal iterations
        ++ codes ",p="
        ++ decimal parallelism)
    ++ b'$' ∷ (base64_encode salt ++ b'$' ∷ base64_encode hash)

unfoldable pub hash_password : Crypto → GoString → Exec GoString
hash_password crypto password = do
  salt ← read_random salt_len
  pure (encode_hash salt (crypto.argon2 password salt iterations memory parallelism key_len))

-- The end of `verifyPassword`, with what the parts decode to.
unfoldable pub verify_decoded :
    Crypto → GoString → Option (ℕ × ℕ × ℕ) → Option (List ℕ) → Option (List ℕ) → Result Bool
verify_decoded crypto password (some (m, t, p)) (some salt) (some expected) =
    if is_empty expected
    then err bad_password_hash
    else ok (crypto.argon2 password salt t m p (length expected % 2 ^ 32) =s= expected)
verify_decoded crypto password none salt expected = err bad_password_hash
verify_decoded crypto password (some params) none expected = err bad_password_hash
verify_decoded crypto password (some params) (some salt) none = err bad_password_hash

-- `verifyPassword` on the parts.
unfoldable pub verify_parts : Crypto → GoString → List GoString → Result Bool
unfolding verify_decoded scan_params base64_decode
verify_parts crypto password (p0 ∷ p1 ∷ p2 ∷ p3 ∷ p4 ∷ p5 ∷ []) =
    if not (p1 =s= codes "argon2id")
    then err bad_password_hash
    else if not (p2 =s= codes "v=19")
    then err bad_password_hash
    else verify_decoded crypto password (scan_params p3) (base64_decode p4) (base64_decode p5)
verify_parts crypto password _ = err bad_password_hash

unfoldable pub verify_password : Crypto → GoString → GoString → Result Bool
unfolding verify_parts
verify_password crypto password encoded = verify_parts crypto password (split b'$' encoded)

unfoldable pub hex_digit : ℕ → ℕ
hex_digit v = if ltb v 10 then b'0' + v else b'a' + (v - 10)

-- hex.EncodeToString
unfoldable pub hex_encode : List ℕ → GoString
unfolding hex_digit
hex_encode [] = []
hex_encode (b ∷ bs) = hex_digit (b / 16) ∷ hex_digit (b % 16) ∷ hex_encode bs

unfoldable pub hash_token : Crypto → GoString → List ℕ
hash_token crypto token = crypto.sha256 token

unfoldable pub generate_session_token_pair : Crypto → Exec (GoString × List ℕ)
unfolding hex_encode hash_token
generate_session_token_pair crypto = do
  buf ← read_random 32
  pure (hex_encode buf, hash_token crypto (hex_encode buf))
