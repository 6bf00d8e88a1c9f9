-- ===== src/Auth/Jwt/Config.antt =====
-- pkg/auth/jwt.go: `ValidatorConfig` and the type of a token. The mapper of permissions and the HTTP
-- client, which the configuration holds too, are parameters of the validator.
use stricklysoft_core.Prelude.{
  ℕ, ◌≤◌, ◌≡◌, ◌≢◌, ◌↔◌, Bool, true, false, ◌&&◌, ◌||◌, not, String, Option, none, some, arith,
  ◌==◌, eq_iff, if◌then◌else◌, ltb, leb, ℤ, pos, negsuc, is_negative, byte_length, has_upper_prefix,
}
use stricklysoft_core.Errors.{Error, new}
use stricklysoft_core.Errors.Codes.{code_validation}

-- `type TokenType string`: its three constants, and the empty text where nothing matches.
pub data TokenType : Type 0 where
  token_kubernetes token_platform token_oidc no_token_type : TokenType

pub record ValidatorConfig : Type 0 where
  pub enable_kubernetes : Bool
  pub enable_platform : Bool
  pub enable_oidc : Bool
  pub platform_signing_key : String
  pub platform_issuer : String
  pub platform_audience : String
  pub oidc_issuer_url : String
  pub oidc_audience : String
  pub kubernetes_issuer : String
  pub kubernetes_audience : String
  pub token_cache_ttl : ℤ
  pub token_cache_max_size : ℤ
  pub jwks_cache_ttl : ℤ
  pub clock_skew : ℤ
  pub sa_token_path : String

abbrev pub default_sa_token_path : String
default_sa_token_path = "/var/run/secrets/kubernetes.io/serviceaccount/token"

abbrev pub max_token_size : ℕ
max_token_size = 8192

abbrev is_zero_or_less : ℤ → Bool
is_zero_or_less (pos n) = leb n 0
is_zero_or_less (negsuc n) = true

-- `ValidatorConfig.Validate`
unfoldable pub validate_config : ValidatorConfig → Option Error
unfolding new
validate_config c =
    if not c.enable_kubernetes && not c.enable_platform && not c.enable_oidc
    then some (
        new code_validation
          "auth: at least one token type must be enabled (kubernetes, platform, or oidc)")
    else if c.enable_platform && ltb (byte_length c.platform_signing_key) 32
    then some (new code_validation "auth: platform signing key must be at least 32 bytes")
    else if c.enable_oidc && c.oidc_issuer_url == ""
    then some (new code_validation "auth: OIDC issuer URL must not be empty when OIDC is enabled")
    else if is_negative c.token_cache_ttl
    then some (new code_validation "auth: token cache TTL must be non-negative")
    else if is_negative c.jwks_cache_ttl
    then some (new code_validation "auth: JWKS cache TTL must be non-negative")
    else if is_negative c.clock_skew
    then some (new code_validation "auth: clock skew must be non-negative")
    else if is_zero_or_less c.token_cache_max_size
    then some (new code_validation "auth: token cache max size must be greater than zero")
    else none

-- `DefaultValidatorConfig`
abbrev pub default_validator_config : ValidatorConfig
default_validator_config = record {
  enable_kubernetes = true;
  enable_platform = false;
  enable_oidc = false;
  platform_signing_key = "";
  platform_issuer = "stricklysoft-platform";
  platform_audience = "";
  oidc_issuer_url = "";
  oidc_audience = "";
  kubernetes_issuer = "https://kubernetes.default.svc.cluster.local";
  kubernetes_audience = "https://kubernetes.default.svc.cluster.local";
  token_cache_ttl = pos 300000000000;
  token_cache_max_size = pos 10000;
  jwks_cache_ttl = pos 3600000000000;
  clock_skew = pos 30000000000;
  sa_token_path = default_sa_token_path;
}

-- `detectTokenType`
unfoldable pub detect_token_type : ValidatorConfig → String → String → TokenType
detect_token_type c issuer alg =
    if c.enable_kubernetes && issuer == c.kubernetes_issuer
    then token_kubernetes
    else if c.enable_platform && issuer == c.platform_issuer
    then token_platform
    else if c.enable_oidc && issuer == c.oidc_issuer_url
    then token_oidc
    else if has_upper_prefix "HS" alg && c.enable_platform
    then token_platform
    else if (has_upper_prefix "RS" alg || has_upper_prefix "ES" alg) && c.enable_oidc
    then token_oidc
    else if (has_upper_prefix "RS" alg || has_upper_prefix "ES" alg) && c.enable_kubernetes
    then token_kubernetes
    else no_token_type

-- What a usable configuration is.
pub record IsUsable (c : ValidatorConfig) : Type 0 where
  pub accepts : (c.enable_kubernetes || c.enable_platform || c.enable_oidc) ≡ true
  pub key_long : c.enable_platform ≡ true → 32 ≤ byte_length c.platform_signing_key
  pub issuer_given : c.enable_oidc ≡ true → c.oidc_issuer_url ≢ ""
  pub ttl_sound : is_negative c.token_cache_ttl ≡ false
  pub jwks_ttl_sound : is_negative c.jwks_cache_ttl ≡ false
  pub skew_sound : is_negative c.clock_skew ≡ false
  pub size_sound : is_zero_or_less c.token_cache_max_size ≡ false

module _ (c : ValidatorConfig) where
  usable : validate_config c ≡ none → IsUsable c
  unfolding validate_config
  usable h = record {
    accepts = ground arith;
    key_long = λ e. ground arith;
    issuer_given = λ e. ground (arith, eq_iff c.oidc_issuer_url "");
    ttl_sound = ground arith;
    jwks_ttl_sound = ground arith;
    skew_sound = ground arith;
    size_sound = ground arith;
  }

  accepted : IsUsable c → validate_config c ≡ none
  unfolding validate_config
  accepted h = ground (
    arith,
    eq_iff c.oidc_issuer_url "",
    h.accepts,
    h.key_long,
    h.issuer_given,
    h.ttl_sound,
    h.jwks_ttl_sound,
    h.skew_sound,
    h.size_sound,
  )

  -- Validate accepts exactly the configurations that enable a token type, whose signing key has 32
  -- bytes if platform tokens are enabled, whose OIDC issuer is given if OIDC is, whose durations
  -- are not negative and whose cache has room.
  pub validate_config_iff : (validate_config c ≡ none) ↔ IsUsable c
  validate_config_iff = (usable, accepted)

abbrev pub is_enabled : ValidatorConfig → TokenType → Bool
is_enabled c token_kubernetes = c.enable_kubernetes
is_enabled c token_platform = c.enable_platform
is_enabled c token_oidc = c.enable_oidc
is_enabled c no_token_type = true

-- The issuer that the configuration expects in tokens of a type.
abbrev pub issuer_of : ValidatorConfig → TokenType → String
issuer_of c token_kubernetes = c.kubernetes_issuer
issuer_of c token_platform = c.platform_issuer
issuer_of c token_oidc = c.oidc_issuer_url
issuer_of c no_token_type = ""

-- Whether the issuer is that of an enabled type.
abbrev pub knows_issuer : ValidatorConfig → String → Bool
knows_issuer c issuer =
    (c.enable_kubernetes && issuer == c.kubernetes_issuer)
    || (c.enable_platform && issuer == c.platform_issuer)
    || (c.enable_oidc && issuer == c.oidc_issuer_url)

pub detected-is_enabled :
    (c : ValidatorConfig) (issuer alg : String)
    → is_enabled c (detect_token_type c issuer alg) ≡ true
unfolding detect_token_type
detected-is_enabled c issuer alg = ground arith

-- The type detected for a token is enabled, if there is one; and a token that names the issuer of
-- an enabled type is given a type with that issuer, whatever its algorithm.
pub detect_token_type_lem :
    (c : ValidatorConfig) (issuer alg : String)
    → (is_enabled c (detect_token_type c issuer alg) ≡ true)
      × ((if knows_issuer c issuer then issuer_of c (detect_token_type c issuer alg) else issuer)
          ≡ issuer)
unfolding detect_token_type
detect_token_type_lem c issuer alg = (
  detected-is_enabled c issuer alg,
  ground (
    arith,
    eq_iff issuer c.kubernetes_issuer,
    eq_iff issuer c.platform_issuer,
    eq_iff issuer c.oidc_issuer_url,
  ),
)
