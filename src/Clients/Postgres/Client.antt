-- ===== src/Clients/Postgres/Client.antt =====
-- pkg/clients/postgres/client.go: the client on a pool of pgx, which is a record of functions on a state
-- of the pool.
use Prim.Native.String.{◌++◌}
use stricklysoft_core.Prelude.{
  ℕ, String, Option, none, some, List, [], ◌∷◌, true, ◌==◌, if◌then◌else◌, ℤ, pos,
}
use stricklysoft_core.Errors.{GoError, Error, wrap}
use stricklysoft_core.Errors.Codes.{
  code_validation, code_internal_configuration, code_unavailable_dependency,
}
use stricklysoft_core.Errors.Results.{Result, ok, err}
use stricklysoft_core.Clients.Text.{truncate}
use stricklysoft_core.Clients.System.{System, path_or}
use stricklysoft_core.Clients.Trace.{
  string_value, Span, started, Call, Traced, traced, appended, Context, health,
}
use stricklysoft_core.Clients.Postgres.Config.{Config, validate}
use stricklysoft_core.Clients.Postgres.Tls.{Url, TlsConfig, X509, connection_string, tls_config}

-- The interface `Pool`
pub record Pool (D Rows Row Tag Tx Arg : Type 0) : Type 0 where
  pub call_query : String → List Arg → Call D (Option Rows)
  pub call_query_row : String → List Arg → D → Row × D
  pub call_exec : String → List Arg → Call D Tag
  pub call_begin : Call D (Option Tx)
  pub call_ping : Context → Call D (Unit {0})
  pub close : D → D

-- `startSpan` of a client of the database with that name.
unfoldable pub start_span : String → String → String → Span
unfolding truncate
start_span database_name operation_name sql = started ("postgres." ++ operation_name) (
    ("db.system", string_value "postgresql")
    ∷ ("db.name", string_value database_name)
    ∷ ("db.statement", string_value (truncate sql))
    ∷ [])

module _ {D Rows Row Tag Tx Arg : Type 0} (pool : Pool D Rows Row Tag Tx Arg)
    (database_name : String) where
  unfoldable pub query :
      (sql : String) (args : List Arg) → Traced D → (Option Rows × Option Error) × Traced D
  unfolding traced start_span
  query sql args =
      traced (start_span database_name "Query" sql) (λ _. none) "postgres: query failed"
        (pool.call_query sql args)

  -- The span ends with no status: the error comes when the row is scanned.
  unfoldable pub query_row : (sql : String) (args : List Arg) → Traced D → Row × Traced D
  unfolding start_span
  query_row sql args c =
      let (row, d) = pool.call_query_row sql args c.driver in
      let span = start_span database_name "QueryRow" sql in
      (row, record { driver = d; spans = appended c.spans (record span { ended = true }) })

  -- The tag of the driver is returned with an error too.
  unfoldable pub exec :
      (sql : String) (args : List Arg) → Traced D → (Tag × Option Error) × Traced D
  unfolding traced start_span
  exec sql args =
      traced (start_span database_name "Exec" sql) (λ tag. tag) "postgres: exec failed"
        (pool.call_exec sql args)

  unfoldable pub begin : Traced D → (Option Tx × Option Error) × Traced D
  unfolding traced start_span
  begin =
      traced (start_span database_name "Begin" "BEGIN") (λ _. none)
        "postgres: begin transaction failed" pool.call_begin

  -- `Health` at the time `now`, with DefaultHealthTimeout.
  unfoldable pub check_health : ℕ → Context → Traced D → Option Error × Traced D
  unfolding health start_span
  check_health now ctx =
      health (start_span database_name "Health" "SELECT 1") "postgres: health check failed" now
        5000000000 pool.call_ping ctx

  -- `Close`
  unfoldable pub close_pool : Traced D → Traced D
  close_pool c = record c { driver = pool.close c.driver }

-- What `NewClient` sets of the configuration of the pool; `parsed` is what pgx made of the connection
-- string.
pub record Settings (P Cert Roots : Type 0) : Type 0 where
  pub parsed : P
  pub max_conns : ℤ
  pub min_conns : ℤ
  pub max_conn_lifetime : ℤ
  pub max_conn_idle_time : ℤ
  pub health_check_period : ℤ
  pub tls : Option (TlsConfig Cert Roots)

-- The functions of pgx, and those of `net/url` that print a URL and give the path of one.
pub record Pgx (D P Cert Roots : Type 0) : Type 0 where
  pub url_text : Url → String
  pub url_path : String → Option String
  pub parse_config : String → Result P
  pub new_with_config : Settings P Cert Roots → Result D
  pub ping : D → Option GoError × D
  pub close : D → D

-- A client, or an error: one that left no pool open, or one after which a pool was closed.
pub data Opened (D : Type 0) : Type 0 where
  opened : D → Config → (database_name : String) → Opened D
  refused : Option Error → Opened D
  closed : Option Error → D → Opened D

module _ {D P Cert Roots : Type 0} (pgx : Pgx D P Cert Roots) (x509 : X509 Cert Roots)
    (sys : System) where
  abbrev pub name_of : Config → String
  name_of c = if c.uri == "" then c.database else path_or c.database (pgx.url_path c.uri)

  abbrev pub pinged : Config → Option GoError × D → Opened D
  pinged c (none, d) = opened d c (name_of c)
  pinged c (some e, d) =
      closed (wrap (some e) code_unavailable_dependency "postgres: failed to connect to database")
        (pgx.close d)

  abbrev pub pooled : Config → Result D → Opened D
  pooled c (err e) =
      refused
        (wrap (some e) code_unavailable_dependency "postgres: failed to create connection pool")
  pooled c (ok d) = pinged c (pgx.ping d)

  abbrev pub settings : Config → P → Option (TlsConfig Cert Roots) → Settings P Cert Roots
  settings c parsed tls = record {
    parsed = parsed;
    max_conns = c.max_conns;
    min_conns = c.min_conns;
    max_conn_lifetime = c.max_conn_lifetime;
    max_conn_idle_time = c.max_conn_idle_time;
    health_check_period = c.health_check_period;
    tls = tls;
  }

  abbrev pub secured : Config → P → Result (Option (TlsConfig Cert Roots)) → Opened D
  secured c parsed (err e) =
      refused (wrap (some e) code_internal_configuration "postgres: failed to configure TLS")
  secured c parsed (ok tls) = pooled c (pgx.new_with_config (settings c parsed tls))

  abbrev pub connected : Config → Result P → Opened D
  connected c (err e) =
      refused (wrap (some e) code_validation "postgres: failed to parse connection string")
  connected c (ok parsed) = secured c parsed (tls_config x509 c)

  abbrev pub configured : Config × Option GoError → Opened D
  configured (c, some e) = refused (wrap (some e) code_validation "postgres: invalid configuration")
  configured (c, none) = connected c (pgx.parse_config (connection_string pgx.url_text c))

  -- `NewClient`, given the configuration by value.
  unfoldable pub new_client : Config → Opened D
  unfolding validate tls_config connection_string wrap
  new_client cfg = configured (validate sys cfg)

-- The configuration behind a pointer, or the zero value for nil.
abbrev pub given_config : Option Config → Config
given_config (some c) = c
given_config none = record {
  uri = "";
  host = "";
  port = pos 0;
  database = "";
  user = "";
  password = "";
  ssl_mode = "";
  ssl_root_cert = "";
  max_conns = pos 0;
  min_conns = pos 0;
  max_conn_lifetime = pos 0;
  max_conn_idle_time = pos 0;
  health_check_period = pos 0;
  connect_timeout = pos 0;
  cloud_provider = "";
}

-- `NewFromPool`
unfoldable pub new_from_pool : {D : Type 0} → D → Option Config → Opened D
new_from_pool d cfg = let c = given_config cfg in opened d c c.database
