-- ===== src/Clients/Redis/Open.antt =====
-- pkg/clients/redis/client.go: `NewClient`, and the options that it gives the library.
use Prim.Native.String.{◌++◌}
use stricklysoft_core.Prelude.{
  ℕ, String, Option, none, some, ◌==◌, if◌then◌else◌, ℤ, pos, lt_int, decimal, false,
}
use stricklysoft_core.Errors.{GoError, Error, wrap}
use stricklysoft_core.Errors.Codes.{code_validation, code_unavailable_dependency}
use stricklysoft_core.Errors.Results.{Result, ok, err}
use stricklysoft_core.Clients.Text.{value}
use stricklysoft_core.Clients.System.{System}
use stricklysoft_core.Clients.Redis.Config.{Config, validate}

-- `redis.Options`, as far as the code sets it; `tls_min_version` is that of its TLS settings.
pub record Options : Type 0 where
  pub addr : String
  pub password : String
  pub db : ℤ
  pub pool_size : ℤ
  pub min_idle_conns : ℤ
  pub max_retries : ℤ
  pub dial_timeout : ℤ
  pub read_timeout : ℤ
  pub write_timeout : ℤ
  pub tls_min_version : Option ℕ

-- The functions of go-redis that NewClient uses.
pub record GoRedis (D : Type 0) : Type 0 where
  pub parse_url : String → Result Options
  pub new_client : Options → D
  pub ping : D → Option GoError × D
  pub close : D → D

pub data Opened (D : Type 0) : Type 0 where
  opened : D → Config → (db_index : ℤ) → Opened D
  refused : Option Error → Opened D
  closed : Option Error → D → Opened D

-- `if d > 0 {options.d = d }`
abbrev pub if_positive : ℤ → ℤ → ℤ
if_positive d old = if lt_int (pos 0) d then d else old

-- The options of the URI with the limits of the configuration.
unfoldable pub uri_options : Config → Options → Options
uri_options c o = record o {
  pool_size = c.pool_size;
  min_idle_conns = c.min_idle_conns;
  max_retries = c.max_retries;
  dial_timeout = if_positive c.dial_timeout o.dial_timeout;
  read_timeout = if_positive c.read_timeout o.read_timeout;
  write_timeout = if_positive c.write_timeout o.write_timeout;
}

unfoldable pub field_options : Config → Options
unfolding decimal
field_options c = record {
  addr = c.host ++ ":" ++ decimal c.port;
  password = value c.password;
  db = c.db;
  pool_size = c.pool_size;
  min_idle_conns = c.min_idle_conns;
  max_retries = c.max_retries;
  dial_timeout = c.dial_timeout;
  read_timeout = c.read_timeout;
  write_timeout = c.write_timeout;
  tls_min_version = if c.tls_enabled then some 0x0303 else none;
}

module _ {D : Type 0} (lib : GoRedis D) (sys : System) where
  abbrev pub pinged : Config → ℤ → Option GoError × D → Opened D
  pinged c db_index (none, d) = opened d c db_index
  pinged c db_index (some e, d) =
      closed (wrap (some e) code_unavailable_dependency "redis: failed to connect to server")
        (lib.close d)

  -- The index of the database is that of the options, also where they come from the configuration.
  abbrev pub started_with : Config → Options → Opened D
  started_with c o = pinged c (if c.uri == "" then c.db else o.db) (lib.ping (lib.new_client o))

  abbrev pub with_parsed : Config → Result Options → Opened D
  with_parsed c (err e) =
      refused (wrap (some e) code_validation "redis: failed to parse connection URI")
  with_parsed c (ok o) = started_with c (uri_options c o)

  abbrev pub configured : Config × Option GoError → Opened D
  configured (c, some e) = refused (wrap (some e) code_validation "redis: invalid configuration")
  configured (c, none) =
      if c.uri == "" then started_with c (field_options c) else with_parsed c (lib.parse_url c.uri)

  -- `NewClient`, given the configuration by value.
  unfoldable pub new_client : Config → Opened D
  unfolding validate uri_options field_options wrap
  new_client cfg = configured (validate sys cfg)

-- The configuration behind a pointer, or the zero value for nil.
abbrev pub given_config : Option Config → Config
given_config (some c) = c
given_config none = record {
  uri = "";
  host = "";
  port = pos 0;
  db = pos 0;
  password = "";
  pool_size = pos 0;
  min_idle_conns = pos 0;
  max_retries = pos 0;
  dial_timeout = pos 0;
  read_timeout = pos 0;
  write_timeout = pos 0;
  tls_enabled = false;
}

-- `NewFromClient`
unfoldable pub new_from_client : {D : Type 0} → D → Option Config → Opened D
new_from_client d cfg = let c = given_config cfg in opened d c c.db
