-- ===== src/Password/Base64.antt =====
-- base64.RawStdEncoding, as server/auth/auth.go uses it on salts and hashes.
use ppgram.Prelude.{
  ◌≢◌, ℕ, ◌+◌, ◌*◌, ◌/◌, ◌%◌, ◌<◌, false, ◌||◌, List, [], ◌∷◌, some, GoString, ◌≡◌, refl, ap, arith,
  ◌==◌, All,
}
use mathlib.Core.Option
use ppgram.Password.{
  base64_char, base64_value, base64_encode, base64_values, base64_bytes, base64_decode,
}

-- The characters, their values and the line breaks.
base64_value-base64_char : (v : ℕ) → v < 64 → base64_value (base64_char v) ≡ some v
unfolding base64_value base64_char
base64_value-base64_char v h = ground arith

base64_char-not_break : (v : ℕ) → v < 64 → (base64_char v == 10 || base64_char v == 13) ≡ false
unfolding base64_char
base64_char-not_break v h = ground arith

base64_char-ne_dollar : (v : ℕ) → base64_char v ≢ 36
unfolding base64_char
base64_char-ne_dollar v = ground arith

-- One character more.
values-∷ :
    (v : ℕ) (s : GoString) {vs : List ℕ}
    → v < 64
    → base64_values s ≡ some vs
    → base64_values (base64_char v ∷ s) ≡ some (v ∷ vs)
unfolding base64_values
values-∷ v s h k = rw (base64_char-not_break v h, base64_value-base64_char v h, k)

abbrev pub IsByte : ℕ → Type 0
IsByte b = b < 256

-- The values of the characters that bytes become.
abbrev sextets : List ℕ → List ℕ
sextets [] = []
sextets (a ∷ []) = a / 4 ∷ a % 4 * 16 ∷ []
sextets (a ∷ b ∷ []) = a / 4 ∷ (a % 4 * 16 + b / 16) ∷ b % 16 * 4 ∷ []
sextets (a ∷ b ∷ c ∷ rest) =
    a / 4 ∷ (a % 4 * 16 + b / 16) ∷ (b % 16 * 4 + c / 64) ∷ c % 64 ∷ sextets rest

values-nil : base64_values [] ≡ some []
unfolding base64_values
values-nil = refl

base64_values-base64_encode :
    (bs : List ℕ) → All IsByte bs → base64_values (base64_encode bs) ≡ some (sextets bs)
unfolding base64_encode
base64_values-base64_encode [] h = values-nil
base64_values-base64_encode (a ∷ []) h =
    let ha = h.0 in values-∷ _ _ (omega arith) (values-∷ _ _ (omega arith) values-nil)
base64_values-base64_encode (a ∷ b ∷ []) h =
    let ha = h.0 in
    let hb = h.1.0 in
    values-∷ _ _ (omega arith) (values-∷ _ _ (omega arith) (values-∷ _ _ (omega arith) values-nil))
base64_values-base64_encode (a ∷ b ∷ c ∷ rest) h =
    let ha = h.0 in
    let hb = h.1.0 in
    let hc = h.1.1.0 in
    values-∷ _ _ (omega arith) (
      values-∷ _ _ (omega arith) (
        values-∷ _ _ (omega arith)
          (values-∷ _ _ (omega arith) (base64_values-base64_encode rest h.1.1.1))))

-- Three bytes are cut into four values and put together again.
first_byte : (a b : ℕ) → a < 256 → b < 256 → a / 4 * 4 + (a % 4 * 16 + b / 16) / 16 ≡ a
first_byte a b ha hb = omega arith

second_byte :
    (a b c : ℕ)
    → a < 256
    → b < 256
    → c < 256
    → (a % 4 * 16 + b / 16) % 16 * 16 + (b % 16 * 4 + c / 64) / 4 ≡ b
second_byte a b c ha hb hc = omega arith

third_byte : (b c : ℕ) → b < 256 → c < 256 → (b % 16 * 4 + c / 64) % 4 * 64 + c % 64 ≡ c
third_byte b c hb hc = omega arith

base64_bytes-sextets : (bs : List ℕ) → All IsByte bs → base64_bytes (sextets bs) ≡ some bs
unfolding base64_bytes
base64_bytes-sextets [] h = refl
base64_bytes-sextets (a ∷ []) h = let ha = h.0 in ap (λ x. some (x ∷ [])) (omega arith)
base64_bytes-sextets (a ∷ b ∷ []) h =
    let ha = h.0 in
    let hb = h.1.0 in
    let last : (a % 4 * 16 + b / 16) % 16 * 16 + b % 16 * 4 / 4 ≡ b = omega arith in
    rw (first_byte a b ha hb, last) refl
base64_bytes-sextets (a ∷ b ∷ c ∷ rest) h =
    let ha = h.0 in
    let hb = h.1.0 in
    let hc = h.1.1.0 in
    rw
      (
        base64_bytes-sextets rest h.1.1.1,
        first_byte a b ha hb,
        second_byte a b c ha hb hc,
        third_byte b c hb hc,
      )
      refl

pub base64_decode-base64_encode :
    (bs : List ℕ) → All IsByte bs → base64_decode (base64_encode bs) ≡ some bs
unfolding base64_decode Option.bind
base64_decode-base64_encode bs h = rw (base64_values-base64_encode bs h) (base64_bytes-sextets bs h)

-- The alphabet has no dollar sign.
pub base64_encode-Without : (bs : List ℕ) → All (λ c. c ≢ 36) (base64_encode bs)
unfolding base64_encode
base64_encode-Without [] = tt
base64_encode-Without (a ∷ []) =
    (base64_char-ne_dollar (a / 4), (base64_char-ne_dollar (a % 4 * 16), tt))
base64_encode-Without (a ∷ b ∷ []) = (
  base64_char-ne_dollar (a / 4),
  (base64_char-ne_dollar (a % 4 * 16 + b / 16), (base64_char-ne_dollar (b % 16 * 4), tt)),
)
base64_encode-Without (a ∷ b ∷ c ∷ rest) = (
  base64_char-ne_dollar (a / 4),
  (
    base64_char-ne_dollar (a % 4 * 16 + b / 16),
    (
      base64_char-ne_dollar (b % 16 * 4 + c / 64),
      (base64_char-ne_dollar (c % 64), base64_encode-Without rest),
    ),
  ),
)
