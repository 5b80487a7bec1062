-- ===== src/Config.antt =====
-- config/config.go: the configuration from the environment of the process.
pub mod Required
mod Tests
use ppgram.Prelude.{
  ℕ, Bool, true, false, ◌==◌, List, [], ◌∷◌, ◌++◌, Option, none, some, GoString, codes, is_empty,
  if◌then◌else◌,
}
use ppgram.Table.{exists}

pub record Config : Type 0 where
  pub quic_host : GoString
  pub quic_port : GoString
  pub tls_cert_file : GoString
  pub tls_key_file : GoString
  pub tls_alpn : GoString
  pub log_file : GoString
  pub postgres_host : GoString
  pub postgres_port : GoString
  pub postgres_user : GoString
  pub postgres_password : GoString
  pub postgres_db : GoString
  pub postgres_ssl_mode : GoString
  pub redis_addr : GoString

-- `is_empty_variable` says "<name> is empty".
pub data ConfigResult : Type 0 where
  loaded : Config → ConfigResult
  empty_variable : (name : GoString) → ConfigResult

-- `os.LookupEnv`
abbrev pub Environment : Type 0
Environment = GoString → Option GoString

abbrev or_empty : Option GoString → GoString
or_empty none = []
or_empty (some v) = v

unfoldable pub getenv : Environment → GoString → GoString
getenv env key = or_empty (env key)

unfoldable pub read_config : Environment → Config
unfolding getenv
read_config env = record {
  quic_host = getenv env (codes "QUIC_HOST");
  quic_port = getenv env (codes "QUIC_PORT");
  tls_cert_file = getenv env (codes "TLS_CERT_FILE");
  tls_key_file = getenv env (codes "TLS_KEY_FILE");
  tls_alpn = getenv env (codes "TLS_ALPN");
  log_file = getenv env (codes "NETWORK_LOG_FILE");
  postgres_host = getenv env (codes "POSTGRES_HOST");
  postgres_port = getenv env (codes "POSTGRES_PORT");
  postgres_user = getenv env (codes "POSTGRES_USER");
  postgres_password = getenv env (codes "POSTGRES_PASSWORD");
  postgres_db = getenv env (codes "POSTGRES_DB");
  postgres_ssl_mode = getenv env (codes "POSTGRES_SSLMODE");
  redis_addr = getenv env (codes "REDIS_ADDR");
}

-- The tests of `Load`, in their order.
unfoldable pub check_config : Config → ConfigResult
check_config cfg =
    if is_empty cfg.tls_cert_file
    then empty_variable (codes "TLS_CERT_FILE")
    else if is_empty cfg.tls_key_file
    then empty_variable (codes "TLS_KEY_FILE")
    else if is_empty cfg.tls_alpn
    then empty_variable (codes "TLS_ALPN")
    else if is_empty cfg.quic_host
    then empty_variable (codes "QUIC_HOST")
    else if is_empty cfg.quic_port
    then empty_variable (codes "QUIC_PORT")
    else if is_empty cfg.log_file
    then empty_variable (codes "NETWORK_LOG_FILE")
    else if is_empty cfg.postgres_host
    then empty_variable (codes "POSTGRES_HOST")
    else if is_empty cfg.postgres_port
    then empty_variable (codes "POSTGRES_PORT")
    else if is_empty cfg.postgres_user
    then empty_variable (codes "POSTGRES_USER")
    else if is_empty cfg.postgres_db
    then empty_variable (codes "POSTGRES_DB")
    else if is_empty cfg.postgres_ssl_mode
    then empty_variable (codes "POSTGRES_SSLMODE")
    else if is_empty cfg.redis_addr
    then empty_variable (codes "REDIS_ADDR")
    else loaded cfg

-- `Load`
unfoldable pub load : Environment → ConfigResult
unfolding read_config check_config
load env = check_config (read_config env)

-- `net.JoinHostPort`: a host with a colon, an IPv6 address, stands in brackets.
unfoldable pub join_host_port : GoString → GoString → GoString
join_host_port host port =
    if exists (λ c. c == b':') host
    then b'[' ∷ (host ++ (b']' ∷ b':' ∷ port))
    else host ++ b':' ∷ port

-- `QUICAddr`
unfoldable pub quic_addr : Config → GoString
unfolding join_host_port
quic_addr cfg = join_host_port cfg.quic_host cfg.quic_port
