-- ===== src/Auth/Samples.antt =====
-- A database, credentials and a key derivation for the tests of server/auth.
use ppgram.Prelude.{ℕ, zero, suc, ◌+◌, ◌%◌, true, List, [], ◌∷◌, map, none, some, GoString, codes}
use ppgram.Database.{User, Database}
use ppgram.Backend.{Backend}
use ppgram.Password.{Crypto, encode_hash}
use ppgram.Errors.{Result, ok, err}
use ppgram.Auth.{AuthCredentials, AuthResult}

abbrev pub copies : ℕ → ℕ → List ℕ
copies zero c = []
copies (suc n) c = c ∷ copies n c

abbrev pub first_byte : GoString → ℕ
first_byte [] = 0
first_byte (c ∷ s) = c % 256

-- A derivation that keeps the first byte of the password, and the text itself for its digest.
abbrev pub sample_crypto : Crypto
sample_crypto = record {
  argon2 = λ password salt t m p n. copies n (first_byte password);
  sha256 = λ s. map (λ c. c % 256) s;
  lower_high = λ c. c;
}

abbrev pub anna : AuthCredentials
anna = record {
  username = codes " Anna_1";
  display_name = codes "Anna";
  password = codes "secret";
  device_id = codes "d1";
  device_name = codes "phone";
}

abbrev pub anna_wrong : AuthCredentials
anna_wrong = record anna { password = codes "guess" }

abbrev pub sample_salt : List ℕ
sample_salt = copies 16 5

abbrev pub anna_user : User
anna_user = record {
  id = codes "u0";
  username = codes "anna_1";
  display_name = codes "Anna";
  password_hash = encode_hash sample_salt (copies 32 115);
  created_at = 1000;
}

abbrev pub uuid : ℕ → GoString
uuid n = b'u' ∷ (b'0' + n) ∷ []

abbrev pub no_rows : Database
no_rows = record {
  users = [];
  user_tokens = [];
  pending_account_deletions = [];
  next_token_id = 1;
  uuids = uuid;
  drawn = 0;
}

abbrev pub fresh : Backend
fresh = record {
  db_ready = true;
  redis_ready = true;
  db = no_rows;
  redis = [];
  now = 1000;
  db_now = 1000;
  faults = [];
  entropy = λ n. some (λ i. 5 + n);
  draws = 0;
}

-- With a user, before any login.
abbrev pub with_anna : Backend
with_anna = record fresh { db = record no_rows { users = anna_user ∷ []; drawn = 1 } }

-- With a token of the user.
abbrev pub with_token : Backend
with_token = record with_anna {
  db = record with_anna.db {
    user_tokens =
        record {
          token_id = 1;
          user_id = codes "u0";
          token_hash = codes "tok";
          device_id = codes "d1";
          device_name = codes "phone";
          issued_at = 900;
          last_used_at = 900;
          expires_at = none;
          revoked_at = none;
        }
        ∷ [];
    next_token_id = 2;
  };
}

-- What a call has returned, or a result of nothing.
abbrev pub result_of : Result AuthResult → AuthResult
result_of (ok r) = r
result_of (err e) = record { user_id = []; device_id = []; device_name = []; session_token = [] }
