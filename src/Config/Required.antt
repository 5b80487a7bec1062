-- ===== src/Config/Required.antt =====
-- Which variables `Load` requires, and which one it reports.
use ppgram.Prelude.{
  true, false, List, [], ◌∷◌, ◌++◌, All, GoString, codes, is_empty, if◌then◌else◌, ◌≡◌, subst, refl,
  ap, sym, map, Bool-cases, inl, inr,
}
use ppgram.Config.{
  Config, ConfigResult, loaded, empty_variable, Environment, getenv, read_config, check_config,
  load,
}

-- Every variable, in the order of the fields.
abbrev pub variables : List GoString
variables =
    codes "QUIC_HOST"
    ∷ codes "QUIC_PORT"
    ∷ codes "TLS_CERT_FILE"
    ∷ codes "TLS_KEY_FILE"
    ∷ codes "TLS_ALPN"
    ∷ codes "NETWORK_LOG_FILE"
    ∷ codes "POSTGRES_HOST"
    ∷ codes "POSTGRES_PORT"
    ∷ codes "POSTGRES_USER"
    ∷ codes "POSTGRES_PASSWORD"
    ∷ codes "POSTGRES_DB"
    ∷ codes "POSTGRES_SSLMODE"
    ∷ codes "REDIS_ADDR"
    ∷ []

abbrev pub fields : Config → List GoString
fields cfg =
    cfg.quic_host ∷ cfg.quic_port ∷ cfg.tls_cert_file ∷ cfg.tls_key_file ∷ cfg.tls_alpn
    ∷ cfg.log_file ∷ cfg.postgres_host ∷ cfg.postgres_port ∷ cfg.postgres_user
    ∷ cfg.postgres_password ∷ cfg.postgres_db ∷ cfg.postgres_ssl_mode ∷ cfg.redis_addr ∷ []

-- All but the password, in the order of the tests.
abbrev pub required : List GoString
required =
    codes "TLS_CERT_FILE"
    ∷ codes "TLS_KEY_FILE"
    ∷ codes "TLS_ALPN"
    ∷ codes "QUIC_HOST"
    ∷ codes "QUIC_PORT"
    ∷ codes "NETWORK_LOG_FILE"
    ∷ codes "POSTGRES_HOST"
    ∷ codes "POSTGRES_PORT"
    ∷ codes "POSTGRES_USER"
    ∷ codes "POSTGRES_DB"
    ∷ codes "POSTGRES_SSLMODE"
    ∷ codes "REDIS_ADDR"
    ∷ []

module _ (env : Environment) where
  abbrev pub IsGiven : GoString → Type 0
  IsGiven name = is_empty (getenv env name) ≡ false

  -- What a result says of the names.
  abbrev pub Tells : List GoString → ConfigResult → Type 0
  Tells names (loaded cfg) = (fields cfg ≡ map (getenv env) variables) × All IsGiven names
  Tells names (empty_variable name) =
      (before : List GoString) × (after : List GoString) × (names ≡ before ++ name ∷ after)
      × All IsGiven before
      × (getenv env name ≡ [])

  empty-nil : (s : GoString) → is_empty s ≡ true → s ≡ []
  unfolding is_empty
  empty-nil [] h = refl
  empty-nil (c ∷ s) h = cc h

  Tells-more :
      (name : GoString) (names : List GoString) (r : ConfigResult)
      → IsGiven name
      → Tells names r
      → Tells (name ∷ names) r
  Tells-more name names (loaded cfg) h (same, given) = (same, (h, given))
  Tells-more name names (empty_variable other) h (before, after, at, given, empty) =
      (name ∷ before, after, ap (λ (l : List GoString). name ∷ l) at, (h, given), empty)

  test-Tells :
      (name : GoString) (names : List GoString) (r : ConfigResult)
      → Tells names r
      → Tells (name ∷ names) (if is_empty (getenv env name) then empty_variable name else r)
  test-Tells name names r h = elim (Bool-cases (is_empty (getenv env name))) [
    | inl empty ↦ rw empty ([], names, refl, tt, empty-nil _ empty)
    | inr given ↦ rw given (Tells-more name names r given h)
  ]

  checked : List GoString → ConfigResult
  checked [] = loaded (read_config env)
  checked (name ∷ names) =
      let r = checked names in if is_empty (getenv env name) then empty_variable name else r

  checked-Tells : (names : List GoString) → Tells names (checked names)
  unfolding checked read_config
  checked-Tells [] = (refl, tt)
  checked-Tells (name ∷ names) = test-Tells name names (checked names) (checked-Tells names)

  load-checked : load env ≡ checked required
  unfolding load check_config read_config checked
  load-checked = refl

  -- Load succeeds only if it has read every field from its own variable and each of the twelve
  -- required variables, which are all but the password, is set and not empty, and otherwise names
  -- one that is unset or empty while those that are tested before it are not.
  pub load-Tells : Tells required (load env)
  load-Tells = subst (Tells required) (sym load-checked) (checked-Tells required)
