-- ===== src/Clients/Postgres/Config.antt =====
-- pkg/clients/postgres/config.go: the configuration, its defaults and its validation. A duration is a
-- number of nanoseconds.
use Prim.Native.String.{◌++◌}
use stricklysoft_core.Prelude.{
  Bool, not, ◌||◌, String, Option, none, some, ◌==◌, if◌then◌else◌, ℤ, pos, lt_int, decimal, quote,
}
use stricklysoft_core.Errors.{GoError, plain, wrapped}
use stricklysoft_core.Errors.Checks.{first_some}
use stricklysoft_core.Errors.Results.{Result, ok, err}
use stricklysoft_core.Clients.Text.{Secret}
use stricklysoft_core.Clients.System.{System, or_default, or_text}

-- `type SSLMode string`
abbrev pub SslMode : Type 0
SslMode = String

abbrev pub ssl_mode_disable : SslMode
ssl_mode_disable = "disable"

abbrev pub ssl_mode_allow : SslMode
ssl_mode_allow = "allow"

abbrev pub ssl_mode_prefer : SslMode
ssl_mode_prefer = "prefer"

abbrev pub ssl_mode_require : SslMode
ssl_mode_require = "require"

abbrev pub ssl_mode_verify_ca : SslMode
ssl_mode_verify_ca = "verify-ca"

abbrev pub ssl_mode_verify_full : SslMode
ssl_mode_verify_full = "verify-full"

-- `SSLMode.Valid`
unfoldable pub valid_ssl_mode : SslMode → Bool
valid_ssl_mode m =
    m == ssl_mode_disable
    || m == ssl_mode_allow
    || m == ssl_mode_prefer
    || m == ssl_mode_require
    || m == ssl_mode_verify_ca
    || m == ssl_mode_verify_full

abbrev pub default_host : String
default_host = "postgres.databases.svc.cluster.local"

abbrev pub default_port : ℤ
default_port = pos 5432

abbrev pub default_database : String
default_database = "stricklysoft"

abbrev pub default_user : String
default_user = "postgres"

abbrev pub default_max_conns : ℤ
default_max_conns = pos 25

abbrev pub default_min_conns : ℤ
default_min_conns = pos 5

abbrev pub default_max_conn_lifetime : ℤ
default_max_conn_lifetime = pos 3600000000000

abbrev pub default_max_conn_idle_time : ℤ
default_max_conn_idle_time = pos 1800000000000

abbrev pub default_health_check_period : ℤ
default_health_check_period = pos 60000000000

abbrev pub default_connect_timeout : ℤ
default_connect_timeout = pos 10000000000

pub record Config : Type 0 where
  pub uri : String
  pub host : String
  pub port : ℤ
  pub database : String
  pub user : String
  pub password : Secret
  pub ssl_mode : SslMode
  pub ssl_root_cert : String
  pub max_conns : ℤ
  pub min_conns : ℤ
  pub max_conn_lifetime : ℤ
  pub max_conn_idle_time : ℤ
  pub health_check_period : ℤ
  pub connect_timeout : ℤ
  pub cloud_provider : String

unfoldable pub default_config : Config
default_config = record {
  uri = "";
  host = default_host;
  port = default_port;
  database = default_database;
  user = default_user;
  password = "";
  ssl_mode = ssl_mode_require;
  ssl_root_cert = "";
  max_conns = default_max_conns;
  min_conns = default_min_conns;
  max_conn_lifetime = default_max_conn_lifetime;
  max_conn_idle_time = default_max_conn_idle_time;
  health_check_period = default_health_check_period;
  connect_timeout = default_connect_timeout;
  cloud_provider = "";
}

unfoldable pub apply_pool_defaults : Config → Config
apply_pool_defaults c = record c {
  max_conns = or_default default_max_conns c.max_conns;
  min_conns = or_default default_min_conns c.min_conns;
  max_conn_lifetime = or_default default_max_conn_lifetime c.max_conn_lifetime;
  max_conn_idle_time = or_default default_max_conn_idle_time c.max_conn_idle_time;
  health_check_period = or_default default_health_check_period c.health_check_period;
  connect_timeout = or_default default_connect_timeout c.connect_timeout;
}

-- The branch of a configuration with a URI.
abbrev pub scheme_error : Result String → Option GoError
scheme_error (err e) = some (wrapped "postgres: config URI is invalid" e)
scheme_error (ok scheme) =
    if not (scheme == "postgres" || scheme == "postgresql")
    then some (
        plain (
          "postgres: config URI scheme must be postgres:// or postgresql://, got " ++ quote scheme))
    else none

-- The tests of the port, the database and the user.
unfoldable pub address_error : Config → Option GoError
unfolding decimal
address_error c =
    if lt_int c.port (pos 1) || lt_int (pos 65535) c.port
    then some (plain ("postgres: config port must be between 1 and 65535, got " ++ decimal c.port))
    else if c.database == ""
    then some (plain "postgres: config database must not be empty")
    else if c.user == ""
    then some (plain "postgres: config user must not be empty")
    else none

abbrev pub cert_error : String → Option GoError → Option GoError
cert_error path none = none
cert_error path (some e) =
    some (wrapped ("postgres: config ssl_root_cert " ++ quote path ++ " is not accessible") e)

abbrev pub negative_error : System → String → ℤ → GoError
negative_error sys name d =
    plain ("postgres: config " ++ name ++ " must not be negative, got " ++ sys.duration_text d)

-- The tests of the pool and of the durations.
unfoldable pub pool_error : System → Config → Option GoError
unfolding decimal
pool_error sys c =
    if lt_int c.max_conns (pos 1)
    then some (plain ("postgres: config max_conns must be >= 1, got " ++ decimal c.max_conns))
    else if lt_int c.min_conns (pos 0)
    then some (plain ("postgres: config min_conns must be >= 0, got " ++ decimal c.min_conns))
    else if lt_int c.max_conns c.min_conns
    then some (
        plain (
          "postgres: config max_conns ("
          ++ decimal c.max_conns
          ++ ") must be >= min_conns ("
          ++ decimal c.min_conns
          ++ ")"))
    else if lt_int c.connect_timeout (pos 0)
    then some (negative_error sys "connect_timeout" c.connect_timeout)
    else if lt_int c.max_conn_lifetime (pos 0)
    then some (negative_error sys "max_conn_lifetime" c.max_conn_lifetime)
    else if lt_int c.max_conn_idle_time (pos 0)
    then some (negative_error sys "max_conn_idle_time" c.max_conn_idle_time)
    else if lt_int c.health_check_period (pos 0)
    then some (negative_error sys "health_check_period" c.health_check_period)
    else none

-- The tests of the SSL mode and its certificate, and those behind them.
unfoldable pub ssl_error : System → Config → Option GoError
unfolding valid_ssl_mode
ssl_error sys c =
    if not (valid_ssl_mode c.ssl_mode)
    then some (plain ("postgres: config ssl_mode " ++ quote c.ssl_mode ++ " is not valid"))
    else if c.ssl_root_cert == ""
    then none
    else cert_error c.ssl_root_cert (sys.stat_error c.ssl_root_cert)

-- The tests in their order; the SSL mode gets its default behind the first three.
abbrev pub validated : System → Config → Option GoError → Config × Option GoError
validated sys c (some e) = (c, some e)
validated sys c none =
    let c' = record c { ssl_mode = or_text ssl_mode_require c.ssl_mode } in
    (c', first_some (ssl_error sys c') (pool_error sys c'))

-- `Config.Validate`, which writes the defaults into its receiver.
unfoldable pub validate : System → Config → Config × Option GoError
unfolding apply_pool_defaults address_error ssl_error pool_error
validate sys given =
    let c = apply_pool_defaults given in
    let addressed = record c {
      host = or_text default_host c.host;
      port = or_default default_port c.port;
    } in
    if c.uri == ""
    then validated sys addressed (address_error addressed)
    else (c, scheme_error (sys.url_scheme c.uri))
