-- ===== src/Password/Tests.antt =====
-- The theorems on password hashes at concrete inputs.
use ppgram.Prelude.{
  ℕ, zero, suc, ◌%◌, ◌^◌, true, false, List, [], ◌∷◌, codes, ◌≡◌, refl, ap, arith, All, length,
  is_empty, some, ◌=s=◌,
}
use ppgram.Errors.{ok}
use ppgram.Password.{Crypto, encode_hash, verify_password, base64_encode, base64_decode}
use ppgram.Password.Base64.{IsByte, base64_decode-base64_encode}
use ppgram.Password.Verify.{verify_password-encode_hash, verify_password-hash_password}

-- A derivation that gives as many sevens as bytes are asked for.
abbrev sevens : ℕ → List ℕ
sevens zero = []
sevens (suc n) = 7 ∷ sevens n

abbrev seven_crypto : Crypto
seven_crypto = record {
  argon2 = λ password salt t m p n. sevens n;
  sha256 = λ s. [];
  lower_high = λ c. c;
}

sevens-IsByte : (n : ℕ) → All IsByte (sevens n)
sevens-IsByte zero = tt
sevens-IsByte (suc n) = (omega arith, sevens-IsByte n)

length-sevens : (n : ℕ) → length (sevens n) ≡ n
length-sevens zero = refl
length-sevens (suc n) = ap (λ m. suc m) (length-sevens n)

not_empty : is_empty (sevens 3) ≡ false
unfolding is_empty
not_empty = refl

verify_password-encode_hash_example :
    verify_password seven_crypto (codes "p") (encode_hash (sevens 16) (sevens 3))
    ≡ ok (sevens (length (sevens 3) % 2 ^ 32) =s= sevens 3)
verify_password-encode_hash_example =
    verify_password-encode_hash seven_crypto (codes "p") (sevens 16) (sevens 3) (sevens-IsByte 16)
      (sevens-IsByte 3) not_empty

verify_password-hash_password_example :
    verify_password seven_crypto (codes "p") (encode_hash (sevens 16) (sevens 32)) ≡ ok true
verify_password-hash_password_example =
    verify_password-hash_password seven_crypto (codes "p") (sevens 16)
      (λ p s t m q n. (sevens-IsByte n, length-sevens n)) (sevens-IsByte 16)

base64_decode-base64_encode_example : base64_decode (base64_encode (sevens 5)) ≡ some (sevens 5)
base64_decode-base64_encode_example = base64_decode-base64_encode (sevens 5) (sevens-IsByte 5)
