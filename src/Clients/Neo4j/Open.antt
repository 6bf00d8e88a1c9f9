-- ===== src/Clients/Neo4j/Open.antt =====
-- pkg/clients/neo4j/client.go: `NewClient`.
use stricklysoft_core.Prelude.{String, Option, none, some, ◌==◌, ◌&&◌, not, if◌then◌else◌, ℤ, pos}
use stricklysoft_core.Errors.{GoError, Error, wrap}
use stricklysoft_core.Errors.Codes.{
  code_validation, code_internal_database, code_unavailable_dependency,
}
use stricklysoft_core.Errors.Results.{Result, ok, err}
use stricklysoft_core.Clients.Text.{value}
use stricklysoft_core.Clients.System.{System, path_or}
use stricklysoft_core.Clients.Neo4j.Config.{Config, validate, connection_uri}

-- What `NewClient` sets for the driver.
pub record DriverSettings : Type 0 where
  pub uri : String
  pub username : String
  pub password : String
  pub max_connection_pool_size : ℤ
  pub max_connection_lifetime : ℤ
  pub connection_acquisition_timeout : ℤ
  pub socket_connect_timeout : ℤ

-- The functions of the driver package, and the path of a URL of `net/url`.
pub record DriverPackage (D : Type 0) : Type 0 where
  pub new_driver : DriverSettings → Result D
  pub verify_connectivity : D → Option GoError × D
  pub close : D → D
  pub url_path : String → Option String

pub data Opened (D : Type 0) : Type 0 where
  opened : D → Config → (database_name : String) → Opened D
  refused : Option Error → Opened D
  closed : Option Error → D → Opened D

module _ {D : Type 0} (lib : DriverPackage D) (sys : System) where
  abbrev pub name_of : Config → String
  name_of c =
      if c.database == "" && not (c.uri == "")
      then path_or c.database (lib.url_path c.uri)
      else c.database

  abbrev pub verified : Config → Option GoError × D → Opened D
  verified c (none, d) = opened d c (name_of c)
  verified c (some e, d) =
      closed (wrap (some e) code_unavailable_dependency "neo4j: failed to connect to database")
        (lib.close d)

  abbrev pub made : Config → Result D → Opened D
  made c (err e) = refused (wrap (some e) code_internal_database "neo4j: failed to create driver")
  made c (ok d) = verified c (lib.verify_connectivity d)

  abbrev pub driver_settings : Config → DriverSettings
  driver_settings c = record {
    uri = connection_uri c;
    username = c.username;
    password = value c.password;
    max_connection_pool_size = c.max_connection_pool_size;
    max_connection_lifetime = c.max_connection_lifetime;
    connection_acquisition_timeout = c.connection_acquisition_timeout;
    socket_connect_timeout = c.connect_timeout;
  }

  abbrev pub configured : Config × Option GoError → Opened D
  configured (c, some e) = refused (wrap (some e) code_validation "neo4j: invalid configuration")
  configured (c, none) = made c (lib.new_driver (driver_settings c))

  -- `NewClient`, given the configuration by value.
  unfoldable pub new_client : Config → Opened D
  unfolding validate connection_uri wrap
  new_client cfg = configured (validate sys cfg)

-- The configuration behind a pointer, or the zero value for nil.
abbrev pub given_config : Option Config → Config
given_config (some c) = c
given_config none = record {
  uri = "";
  host = "";
  port = pos 0;
  scheme = "";
  database = "";
  username = "";
  password = "";
  max_connection_pool_size = pos 0;
  max_connection_lifetime = pos 0;
  connection_acquisition_timeout = pos 0;
  connect_timeout = pos 0;
}

-- `NewFromDriver`
unfoldable pub new_from_driver : {D : Type 0} → D → Option Config → Opened D
new_from_driver d cfg = let c = given_config cfg in opened d c c.database
