-- ===== src/Clients/Minio/Config.antt =====
-- pkg/clients/minio/config.go: the configuration, its defaults and its validation.
use stricklysoft_core.Prelude.{
  Bool, false, String, Option, none, some, ◌==◌, if◌then◌else◌, ◌≡◌, ◌↔◌, ◌≢◌, arith, eq_iff,
}
use stricklysoft_core.Errors.{GoError, plain}
use stricklysoft_core.Clients.Text.{Secret, value}
use stricklysoft_core.Clients.System.{or_text}

abbrev pub default_endpoint : String
default_endpoint = "minio.databases.svc.cluster.local:9000"

abbrev pub default_region : String
default_region = "us-east-1"

pub record Config : Type 0 where
  pub endpoint : String
  pub access_key : String
  pub secret_key : Secret
  pub region : String
  pub use_ssl : Bool
  pub health_bucket : String

unfoldable pub default_config : Config
default_config = record {
  endpoint = default_endpoint;
  access_key = "";
  secret_key = "";
  region = default_region;
  use_ssl = false;
  health_bucket = "";
}

-- `Config.Validate`, which writes the default region into its receiver at its end.
unfoldable pub validate : Config → Config × Option GoError
validate c =
    if c.endpoint == ""
    then (c, some (plain "minio: config endpoint must not be empty"))
    else if c.access_key == ""
    then (c, some (plain "minio: config access_key must not be empty"))
    else if value c.secret_key == ""
    then (c, some (plain "minio: config secret_key must not be empty"))
    else (record c { region = or_text default_region c.region }, none)

-- Validate accepts a MinIO configuration exactly when the endpoint and both keys are given, and then
-- changes nothing but an empty region, which becomes the default one.
pub validate_iff :
    (c d : Config)
    → (validate c ≡ (d, none)) ↔ (
        (c.endpoint ≢ "")
        × ((c.access_key ≢ "")
            × ((c.secret_key ≢ "") × (d ≡ record c { region = or_text default_region c.region }))))
unfolding validate
validate_iff c d =
    let endpoint = eq_iff c.endpoint "" in
    let access = eq_iff c.access_key "" in
    let secret = eq_iff c.secret_key "" in
    (
      λ h. (ground arith, (ground arith, (ground arith, ground arith))),
      λ h. ground (arith, h.0, h.1.0, h.1.1.0, h.1.1.1),
    )
