-- ===== src/Clients/Redis/Config.antt =====
-- pkg/clients/redis/config.go: the configuration, its defaults and its validation.
use Prim.Native.String.{◌++◌}
use stricklysoft_core.Prelude.{
  Bool, false, not, ◌||◌, String, Option, none, some, ◌==◌, if◌then◌else◌, ℤ, pos, lt_int, decimal,
  quote,
}
use stricklysoft_core.Errors.{GoError, plain, wrapped}
use stricklysoft_core.Errors.Results.{Result, ok, err}
use stricklysoft_core.Clients.Text.{Secret}
use stricklysoft_core.Clients.System.{System, or_default, or_text}

abbrev pub default_host : String
default_host = "redis.databases.svc.cluster.local"

abbrev pub default_port : ℤ
default_port = pos 6379

abbrev pub default_db : ℤ
default_db = pos 0

abbrev pub default_pool_size : ℤ
default_pool_size = pos 25

abbrev pub default_min_idle_conns : ℤ
default_min_idle_conns = pos 5

abbrev pub default_max_retries : ℤ
default_max_retries = pos 3

abbrev pub default_dial_timeout : ℤ
default_dial_timeout = pos 10000000000

abbrev pub default_read_timeout : ℤ
default_read_timeout = pos 5000000000

abbrev pub default_write_timeout : ℤ
default_write_timeout = pos 5000000000

pub record Config : Type 0 where
  pub uri : String
  pub host : String
  pub port : ℤ
  pub db : ℤ
  pub password : Secret
  pub pool_size : ℤ
  pub min_idle_conns : ℤ
  pub max_retries : ℤ
  pub dial_timeout : ℤ
  pub read_timeout : ℤ
  pub write_timeout : ℤ
  pub tls_enabled : Bool

unfoldable pub default_config : Config
default_config = record {
  uri = "";
  host = default_host;
  port = default_port;
  db = default_db;
  password = "";
  pool_size = default_pool_size;
  min_idle_conns = default_min_idle_conns;
  max_retries = default_max_retries;
  dial_timeout = default_dial_timeout;
  read_timeout = default_read_timeout;
  write_timeout = default_write_timeout;
  tls_enabled = false;
}

unfoldable pub apply_defaults : Config → Config
apply_defaults c = record c {
  pool_size = or_default default_pool_size c.pool_size;
  min_idle_conns = or_default default_min_idle_conns c.min_idle_conns;
  max_retries = or_default default_max_retries c.max_retries;
  dial_timeout = or_default default_dial_timeout c.dial_timeout;
  read_timeout = or_default default_read_timeout c.read_timeout;
  write_timeout = or_default default_write_timeout c.write_timeout;
}

abbrev pub scheme_error : Result String → Option GoError
scheme_error (err e) = some (wrapped "redis: config URI is invalid" e)
scheme_error (ok scheme) =
    if not (scheme == "redis" || scheme == "rediss")
    then some
        (plain ("redis: config URI scheme must be redis:// or rediss://, got " ++ quote scheme))
    else none

abbrev pub negative_error : System → String → ℤ → GoError
negative_error sys name d =
    plain ("redis: config " ++ name ++ " must not be negative, got " ++ sys.duration_text d)

unfoldable pub field_error : System → Config → Option GoError
unfolding decimal
field_error sys c =
    if lt_int c.port (pos 1) || lt_int (pos 65535) c.port
    then some (plain ("redis: config port must be between 1 and 65535, got " ++ decimal c.port))
    else if lt_int c.pool_size (pos 1)
    then some (plain ("redis: config pool_size must be >= 1, got " ++ decimal c.pool_size))
    else if lt_int c.min_idle_conns (pos 0)
    then some
        (plain ("redis: config min_idle_conns must be >= 0, got " ++ decimal c.min_idle_conns))
    else if lt_int c.pool_size c.min_idle_conns
    then some (
        plain (
          "redis: config pool_size ("
          ++ decimal c.pool_size
          ++ ") must be >= min_idle_conns ("
          ++ decimal c.min_idle_conns
          ++ ")"))
    else if lt_int c.dial_timeout (pos 0)
    then some (negative_error sys "dial_timeout" c.dial_timeout)
    else if lt_int c.read_timeout (pos 0)
    then some (negative_error sys "read_timeout" c.read_timeout)
    else if lt_int c.write_timeout (pos 0)
    then some (negative_error sys "write_timeout" c.write_timeout)
    else none

-- `Config.Validate`, which writes the defaults into its receiver.
unfoldable pub validate : System → Config → Config × Option GoError
unfolding apply_defaults field_error
validate sys given =
    let c = apply_defaults given in
    let addressed = record c {
      host = or_text default_host c.host;
      port = or_default default_port c.port;
    } in
    if c.uri == ""
    then (addressed, field_error sys addressed)
    else (c, scheme_error (sys.url_scheme c.uri))
