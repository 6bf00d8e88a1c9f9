-- ===== src/Clients/Postgres/Opens.antt =====
-- What has happened when `NewClient` returns a client, or has closed a pool.
use stricklysoft_core.Prelude.{String, Option, none, some, ◌≡◌}
use stricklysoft_core.Errors.{GoError, Error, wrap}
use stricklysoft_core.Errors.Codes.{
  code_validation, code_internal_configuration, code_unavailable_dependency,
}
use stricklysoft_core.Errors.Results.{ok, err}
use stricklysoft_core.Clients.System.{System}
use stricklysoft_core.Clients.Postgres.Config.{Config, validate}
use stricklysoft_core.Clients.Postgres.Tls.{TlsConfig, X509, tls_config}
use stricklysoft_core.Clients.Postgres.Settings.{Addresses, HasLimits}
use stricklysoft_core.Clients.Postgres.Client.{Pgx, Settings, Opened, opened, refused, closed}

module _ {D P Cert Roots : Type 0} (pgx : Pgx D P Cert Roots) (x509 : X509 Cert Roots)
    (sys : System) where
  -- A pool was made with the settings of the configuration, and pinged with that result.
  pub record IsPooled (c : Config) (e : Option GoError) (d : D) : Type 0 where
    pub address : String
    pub parsed : P
    pub tls : Option (TlsConfig Cert Roots)
    pub set : Settings P Cert Roots
    pub before : D
    pub addresses : Addresses pgx c address
    pub parses : pgx.parse_config address ≡ ok parsed
    pub secures : tls_config x509 c ≡ ok tls
    pub limits : HasLimits c parsed tls set
    pub pools : pgx.new_with_config set ≡ ok before
    pub pings : pgx.ping before ≡ (e, d)

  -- The first step that failed, and the error that reports it.
  pub data Refusal (given : Config) : Option Error → Type 0 where
    invalid :
        {c : Config} {x : GoError}
        → validate sys given ≡ (c, some x)
        → Refusal given (wrap (some x) code_validation "postgres: invalid configuration")
    unparsed :
        {c : Config} {x : GoError} {address : String}
        → validate sys given ≡ (c, none)
        → Addresses pgx c address
        → pgx.parse_config address ≡ err x
        → Refusal given
            (wrap (some x) code_validation "postgres: failed to parse connection string")
    insecure :
        {c : Config} {x : GoError} {address : String} {parsed : P}
        → validate sys given ≡ (c, none)
        → Addresses pgx c address
        → pgx.parse_config address ≡ ok parsed
        → tls_config x509 c ≡ err x
        → Refusal given
            (wrap (some x) code_internal_configuration "postgres: failed to configure TLS")
    unpooled :
        {c : Config} {x : GoError} {address : String} {parsed : P}
        {tls : Option (TlsConfig Cert Roots)} {set : Settings P Cert Roots}
        → validate sys given ≡ (c, none)
        → Addresses pgx c address
        → pgx.parse_config address ≡ ok parsed
        → tls_config x509 c ≡ ok tls
        → HasLimits c parsed tls set
        → pgx.new_with_config set ≡ err x
        → Refusal given
            (wrap (some x) code_unavailable_dependency "postgres: failed to create connection pool")

  -- What an outcome of NewClient tells.
  abbrev pub Told : Config → Opened D → Type 0
  Told given (refused e) = Refusal given e
  Told given (opened d c name) = (validate sys given ≡ (c, none)) × IsPooled c none d
  Told given (closed e d') =
      (c : Config) × (x : GoError) × (d : D) × (validate sys given ≡ (c, none))
      × IsPooled c (some x) d
      × (d' ≡ pgx.close d)
      × (e ≡ wrap (some x) code_unavailable_dependency "postgres: failed to connect to database")
