-- ===== src/Clients/Neo4j/Config.antt =====
-- pkg/clients/neo4j/config.go: the configuration, its defaults, its validation and the address that it
-- stands for.
use Prim.Native.String.{◌++◌}
use stricklysoft_core.Prelude.{
  Bool, not, ◌||◌, String, Option, none, some, ◌==◌, if◌then◌else◌, ℤ, pos, lt_int, decimal, quote,
}
use stricklysoft_core.Errors.{GoError, plain, wrapped}
use stricklysoft_core.Errors.Results.{Result, ok, err}
use stricklysoft_core.Clients.Text.{Secret}
use stricklysoft_core.Clients.System.{System, or_default, or_text}

abbrev pub default_host : String
default_host = "neo4j.databases.svc.cluster.local"

abbrev pub default_port : ℤ
default_port = pos 7687

abbrev pub default_scheme : String
default_scheme = "neo4j"

abbrev pub default_database : String
default_database = "neo4j"

abbrev pub default_username : String
default_username = "neo4j"

abbrev pub default_max_connection_pool_size : ℤ
default_max_connection_pool_size = pos 100

abbrev pub default_max_connection_lifetime : ℤ
default_max_connection_lifetime = pos 3600000000000

abbrev pub default_connection_acquisition_timeout : ℤ
default_connection_acquisition_timeout = pos 60000000000

abbrev pub default_connect_timeout : ℤ
default_connect_timeout = pos 10000000000

pub record Config : Type 0 where
  pub uri : String
  pub host : String
  pub port : ℤ
  pub scheme : String
  pub database : String
  pub username : String
  pub password : Secret
  pub max_connection_pool_size : ℤ
  pub max_connection_lifetime : ℤ
  pub connection_acquisition_timeout : ℤ
  pub connect_timeout : ℤ

-- The keys of `validSchemes`
unfoldable pub valid_scheme : String → Bool
valid_scheme s = s == "neo4j" || s == "neo4j+s" || s == "bolt" || s == "bolt+s"

unfoldable pub default_config : Config
default_config = record {
  uri = "";
  host = default_host;
  port = default_port;
  scheme = default_scheme;
  database = default_database;
  username = default_username;
  password = "";
  max_connection_pool_size = default_max_connection_pool_size;
  max_connection_lifetime = default_max_connection_lifetime;
  connection_acquisition_timeout = default_connection_acquisition_timeout;
  connect_timeout = default_connect_timeout;
}

unfoldable pub apply_pool_defaults : Config → Config
apply_pool_defaults c = record c {
  max_connection_pool_size = or_default default_max_connection_pool_size c.max_connection_pool_size;
  max_connection_lifetime = or_default default_max_connection_lifetime c.max_connection_lifetime;
  connection_acquisition_timeout =
      or_default default_connection_acquisition_timeout c.connection_acquisition_timeout;
  connect_timeout = or_default default_connect_timeout c.connect_timeout;
}

-- The branch of a configuration with a URI, whose database and user get defaults behind its tests.
abbrev pub with_uri : Config → Result String → Config × Option GoError
with_uri c (err e) = (c, some (wrapped "neo4j: config URI is invalid" e))
with_uri c (ok scheme) =
    if not (valid_scheme scheme)
    then (
      c,
      some (
          plain (
            "neo4j: config URI scheme must be neo4j://, neo4j+s://, bolt://, or bolt+s://, got "
            ++ quote scheme)),
    )
    else (
      record c {
        database = or_text default_database c.database;
        username = or_text default_username c.username;
      },
      none,
    )

unfoldable pub port_error : Config → Option GoError
unfolding decimal
port_error c =
    if lt_int c.port (pos 1) || lt_int (pos 65535) c.port
    then some (plain ("neo4j: config port must be between 1 and 65535, got " ++ decimal c.port))
    else none

abbrev pub negative_error : System → String → ℤ → GoError
negative_error sys name d =
    plain ("neo4j: config " ++ name ++ " must not be negative, got " ++ sys.duration_text d)

-- The tests behind that of the port.
unfoldable pub field_error : System → Config → Option GoError
unfolding decimal
field_error sys c =
    if c.database == ""
    then some (plain "neo4j: config database must not be empty")
    else if c.username == ""
    then some (plain "neo4j: config username must not be empty")
    else if lt_int c.max_connection_pool_size (pos 1)
    then some (
        plain (
          "neo4j: config max_connection_pool_size must be >= 1, got "
          ++ decimal c.max_connection_pool_size))
    else if lt_int c.max_connection_lifetime (pos 0)
    then some (negative_error sys "max_connection_lifetime" c.max_connection_lifetime)
    else if lt_int c.connection_acquisition_timeout (pos 0)
    then some (negative_error sys "connection_acquisition_timeout" c.connection_acquisition_timeout)
    else if lt_int c.connect_timeout (pos 0)
    then some (negative_error sys "connect_timeout" c.connect_timeout)
    else none

-- The tests in their order; the scheme gets its default behind that of the port.
abbrev pub validated : System → Config → Option GoError → Config × Option GoError
validated sys c (some e) = (c, some e)
validated sys c none =
    let c' = record c { scheme = or_text default_scheme c.scheme } in (c', field_error sys c')

-- `Config.Validate`, which writes the defaults into its receiver.
unfoldable pub validate : System → Config → Config × Option GoError
unfolding apply_pool_defaults valid_scheme port_error field_error
validate sys given =
    let c = apply_pool_defaults given in
    let addressed = record c {
      host = or_text default_host c.host;
      port = or_default default_port c.port;
    } in
    if c.uri == ""
    then validated sys addressed (port_error addressed)
    else with_uri c (sys.url_scheme c.uri)

-- `ConnectionURI`
unfoldable pub connection_uri : Config → String
unfolding decimal
connection_uri c =
    if c.uri == ""
    then or_text default_scheme c.scheme ++ "://" ++ c.host ++ ":" ++ decimal c.port
    else c.uri
