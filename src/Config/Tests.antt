-- ===== src/Config/Tests.antt =====
-- Environments of which one is complete.
use ppgram.Prelude.{[], none, some, codes, is_empty, if◌then◌else◌, ◌≡◌, refl, ◌=s=◌}
use ppgram.Table.{exists}
use ppgram.Config.{
  Environment, empty_variable, getenv, read_config, check_config, load, join_host_port,
}
use ppgram.Config.Required.{required, Tells, load-Tells}

-- Every variable has its own name for a value.
abbrev complete : Environment
complete name = some name

-- Without a port, and with an empty host of the database.
abbrev partial : Environment
partial name =
    if name =s= codes "QUIC_PORT"
    then none
    else if name =s= codes "POSTGRES_HOST"
    then some []
    else some name

reports_first : load partial ≡ empty_variable (codes "QUIC_PORT")
unfolding load read_config check_config getenv is_empty ◌=s=◌
reports_first = refl

address : join_host_port (codes "::1") (codes "443") ≡ codes "[::1]:443"
unfolding join_host_port exists
address = refl

load-Tells_example : Tells complete required (load complete)
load-Tells_example = load-Tells complete
