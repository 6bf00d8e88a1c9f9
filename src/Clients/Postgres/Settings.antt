-- ===== src/Clients/Postgres/Settings.antt =====
-- The connection string and the settings of the pool that `NewClient` makes of a configuration.
use Prim.Native.String.{◌++◌}
use stricklysoft_core.Prelude.{
  String, Option, some, ◌≡◌, ◌≢◌, ◌⊎◌, inl, inr, refl, lookup, decimal, arith, eq_iff, ◌==◌, subst,
  Bool-cases,
}
use stricklysoft_core.Clients.System.{System}
use stricklysoft_core.Clients.Postgres.Config.{Config}
use stricklysoft_core.Clients.Postgres.Tls.{Url, TlsConfig, X509, url_of, connection_string}
use stricklysoft_core.Clients.Postgres.Client.{Pgx, Settings, settings}

-- What pgx made of the connection string, with the limits of the configuration and TLS settings.
pub record HasLimits {P Cert Roots : Type 0} (c : Config) (parsed : P)
    (tls : Option (TlsConfig Cert Roots)) (s : Settings P Cert Roots) : Type 0 where
  pub parsed_kept : s.parsed ≡ parsed
  pub max_conns_kept : s.max_conns ≡ c.max_conns
  pub min_conns_kept : s.min_conns ≡ c.min_conns
  pub lifetime_kept : s.max_conn_lifetime ≡ c.max_conn_lifetime
  pub idle_time_kept : s.max_conn_idle_time ≡ c.max_conn_idle_time
  pub period_kept : s.health_check_period ≡ c.health_check_period
  pub tls_kept : s.tls ≡ tls

module _ {D P Cert Roots : Type 0} (pgx : Pgx D P Cert Roots) where
  -- The connection string of a configuration: its URI, or else a URL with its fields.
  pub data Addresses (c : Config) : String → Type 0 where
    by_uri : c.uri ≢ "" → Addresses c c.uri
    by_fields :
        {u : Url}
        → c.uri ≡ ""
        → u.scheme ≡ "postgres"
        → u.user ≡ c.user
        → u.password ≡ c.password
        → u.host ≡ c.host ++ ":" ++ decimal c.port
        → u.path ≡ c.database
        → (c.ssl_mode ≡ "") ⊎ (lookup "sslmode" u.query ≡ some c.ssl_mode)
        → Addresses c (pgx.url_text u)

  ssl-url_of :
      (c : Config) → (c.ssl_mode ≡ "") ⊎ (lookup "sslmode" (url_of c).query ≡ some c.ssl_mode)
  unfolding lookup
  ssl-url_of c = elim (Bool-cases (c.ssl_mode == "")) [
    | inl e ↦ inl ((eq_iff c.ssl_mode "").0 e)
    | inr e ↦ inr (rw e refl)
  ]

  pub connection_string-Addresses : (c : Config) → Addresses c (connection_string pgx.url_text c)
  unfolding connection_string
  connection_string-Addresses c = elim (Bool-cases (c.uri == "")) [
    | inl e ↦
        let text : pgx.url_text (url_of c) ≡ connection_string pgx.url_text c = ground arith in
        subst (Addresses c) text
          (by_fields {u = url_of c} ((eq_iff c.uri "").0 e) refl refl refl refl refl (ssl-url_of c))
    | inr e ↦
        let text : c.uri ≡ connection_string pgx.url_text c = ground arith in
        subst (Addresses c) text (by_uri (ground (arith, eq_iff c.uri "")))
  ]

module _ {D P Cert Roots : Type 0} (pgx : Pgx D P Cert Roots) (x509 : X509 Cert Roots)
    (sys : System) where
  pub settings-HasLimits :
      (c : Config) (parsed : P) (tls : Option (TlsConfig Cert Roots))
      → HasLimits c parsed tls (settings pgx x509 sys c parsed tls)
  settings-HasLimits c parsed tls = record {
    parsed_kept = refl;
    max_conns_kept = refl;
    min_conns_kept = refl;
    lifetime_kept = refl;
    idle_time_kept = refl;
    period_kept = refl;
    tls_kept = refl;
  }
