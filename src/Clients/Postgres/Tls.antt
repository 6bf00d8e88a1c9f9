-- ===== src/Clients/Postgres/Tls.antt =====
-- pkg/clients/postgres/config.go: the connection string and the TLS settings. `net/url` prints the URL,
-- and `crypto/x509` reads and verifies certificates.
use Prim.Native.Nat.{◌/◌}
use Prim.Native.String.{◌++◌}
use stricklysoft_core.Prelude.{
  ℕ, Bool, true, false, ◌||◌, String, Option, none, some, List, [], ◌∷◌, ◌==◌, if◌then◌else◌, ℤ,
  pos, negsuc, lt_int, decimal, quote,
}
use stricklysoft_core.Errors.{GoError, plain, wrapped}
use stricklysoft_core.Errors.Results.{Result, ok, err}
use stricklysoft_core.Clients.Text.{value}
use stricklysoft_core.Clients.Postgres.Config.{
  Config, ssl_mode_disable, ssl_mode_verify_ca, ssl_mode_verify_full,
}

-- `url.URL` with its query, in the order in which the code sets it.
pub record Url : Type 0 where
  pub scheme : String
  pub user : String
  pub password : String
  pub host : String
  pub path : String
  pub query : List (String × String)

-- `int(d.Seconds())`, for which the code tests that it is positive. The float64 is exact below 2^22
-- seconds.
abbrev pub whole_seconds : ℤ → ℤ
whole_seconds (pos n) = pos (n / 1000000000)
whole_seconds (negsuc n) = pos 0

abbrev pub timeout_query : Config → List (String × String)
timeout_query c =
    if lt_int (pos 0) c.connect_timeout
    then ("connect_timeout", decimal (whole_seconds c.connect_timeout)) ∷ []
    else []

abbrev pub ssl_query : Config → List (String × String)
ssl_query c =
    if c.ssl_mode == "" then timeout_query c else ("sslmode", c.ssl_mode) ∷ timeout_query c

abbrev pub url_of : Config → Url
url_of c = record {
  scheme = "postgres";
  user = c.user;
  password = value c.password;
  host = c.host ++ ":" ++ decimal c.port;
  path = c.database;
  query = ssl_query c;
}

-- `ConnectionString`; the printing of the URL is an argument.
unfoldable pub connection_string : (Url → String) → Config → String
unfolding decimal
connection_string url_text c = if c.uri == "" then url_text (url_of c) else c.uri

-- What the code sets of `tls.Config`.
pub record TlsConfig (Cert Pool : Type 0) : Type 0 where
  pub root_cas : Pool
  pub min_version : ℕ
  pub server_name : String
  pub insecure_skip_verify : Bool
  pub verify_connection : Option (List Cert → Option GoError)

-- Reading a file, `AppendCertsFromPEM` on an empty pool, and the error of `Verify` of a certificate with
-- a pool of roots and the intermediates.
pub record X509 (Cert Pool : Type 0) : Type 0 where
  pub read_file : String → Result String
  pub parse_pem : String → Option Pool
  pub verify : Pool → List Cert → Cert → Option GoError

abbrev pub version_tls12 : ℕ
version_tls12 = 0x0303

module _ {Cert Pool : Type 0} (x509 : X509 Cert Pool) where
  -- `VerifyConnection` of the mode verify-ca, given the certificates of the peer.
  abbrev pub verify_chain : Pool → List Cert → Option GoError
  verify_chain roots [] = some (plain "postgres: server did not present a certificate")
  verify_chain roots (first ∷ others) = x509.verify roots others first

  abbrev pub tls_with : Config → Pool → TlsConfig Cert Pool
  tls_with c pool =
      let base : TlsConfig Cert Pool = record {
        root_cas = pool;
        min_version = version_tls12;
        server_name = "";
        insecure_skip_verify = false;
        verify_connection = none;
      } in
      if c.ssl_mode == ssl_mode_verify_full
      then record base { server_name = c.host }
      else if c.ssl_mode == ssl_mode_verify_ca
      then record base { insecure_skip_verify = true; verify_connection = some (verify_chain pool) }
      else record base { insecure_skip_verify = true }

  abbrev pub parsed_pool : Config → Option Pool → Result (Option (TlsConfig Cert Pool))
  parsed_pool c none =
      err (plain ("postgres: failed to parse CA certificate from " ++ quote c.ssl_root_cert))
  parsed_pool c (some pool) = ok (some (tls_with c pool))

  abbrev pub read_pool : Config → Result String → Result (Option (TlsConfig Cert Pool))
  read_pool c (err e) =
      err (wrapped ("postgres: failed to read CA certificate " ++ quote c.ssl_root_cert) e)
  read_pool c (ok pem) = parsed_pool c (x509.parse_pem pem)

  -- `tlsConfig`
  unfoldable pub tls_config : Config → Result (Option (TlsConfig Cert Pool))
  tls_config c =
      if c.ssl_root_cert == "" || c.ssl_mode == ssl_mode_disable
      then ok none
      else read_pool c (x509.read_file c.ssl_root_cert)
