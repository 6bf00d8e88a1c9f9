-- ===== src/Auth/Jwt/Validator.antt =====
-- pkg/auth/jwt.go: `JWTValidator`. The JWT package and SHA-256 are parameters. One call runs alone: the
-- locks that it takes, for the caches and for the discovered URL, are left out with the tracing.
use stricklysoft_core.Prelude.{
  ℕ, Bool, false, String, Option, none, some, List, [], ◌∷◌, ◌==◌, if◌then◌else◌, ℤ, magnitude,
}
use stricklysoft_core.Value.{Claims}
use stricklysoft_core.Errors.{platform}
use stricklysoft_core.Errors.Results.{Result, ok, err}
use stricklysoft_core.Auth.Identity.{Identity}
use stricklysoft_core.Auth.TokenCache.{TokenCache, new_token_cache}
use stricklysoft_core.Auth.Jwt.Config.{
  TokenType, token_platform, token_oidc, ValidatorConfig, default_sa_token_path, validate_config,
}
use stricklysoft_core.Auth.Jwt.Keys.{PublicKey, JwksCache, new_jwks_cache}

-- `JWTValidator`, without the mapper and the client, and the world that the client acts on.
pub record System (W : Type 0) : Type 0 where
  pub config : ValidatorConfig
  pub token_cache : TokenCache Identity
  pub jwks_cache : JwksCache
  pub oidc_jwks_url : String
  pub oidc_discovered : Bool
  pub world : W

-- `jwt.Token`; `claims` is nothing if they are no `jwt.MapClaims`.
pub record Token : Type 0 where
  pub header : Claims
  pub claims : Option Claims
  pub is_valid : Bool

-- What the key function hands to the JWT package.
pub data Key : Type 0 where
  hmac : String → Key
  public : PublicKey → Key

-- The options `WithValidMethods`, `WithIssuer`, `WithLeeway` and, if it is given, `WithAudience`.
pub record ParserOptions : Type 0 where
  pub valid_methods : List String
  pub issuer : String
  pub leeway : ℤ
  pub audience : Option String

abbrev pub Keyfunc : Type 0 → Type 0
Keyfunc W = Token → System W → Result Key × System W

-- `ParseUnverified` (nothing on an error); `jwt.Parse` in two parts, the token for which it calls the
-- key function (nothing if it fails before) and its result from what that function returned;
-- `GetExpirationTime` (nothing on an error or if the claim is missing); the hexadecimal SHA-256 hash.
pub record JwtPackage : Type 0 where
  pub parse_unverified : String → Option Token
  pub key_wanted : String → ParserOptions → Option Token
  pub verify : String → ParserOptions → Option (Result Key) → Result Token
  pub expiration_time : Claims → Option ℕ
  pub sha256_hex : String → String

-- `NewJWTValidator`
unfoldable pub new_jwt_validator : {W : Type 0} → ValidatorConfig → W → Result (System W)
unfolding validate_config new_token_cache
new_jwt_validator config world = elim (validate_config config) [
  | some e ↦ err (platform e)
  | none ↦ ok (record {
    config = record config {
      sa_token_path =
          if config.sa_token_path == "" then default_sa_token_path else config.sa_token_path;
    };
    token_cache =
        new_token_cache (magnitude config.token_cache_ttl) (magnitude config.token_cache_max_size);
    jwks_cache = new_jwks_cache (magnitude config.jwks_cache_ttl);
    oidc_jwks_url = "";
    oidc_discovered = false;
    world = world;
  })
]

abbrev audience_of : String → Option String
audience_of s = if s == "" then none else some s

abbrev pub options_of : ValidatorConfig → TokenType → ParserOptions
options_of c token_platform = record {
  valid_methods = "HS256" ∷ [];
  issuer = c.platform_issuer;
  leeway = c.clock_skew;
  audience = audience_of c.platform_audience;
}
options_of c token_oidc = record {
  valid_methods = "RS256" ∷ "ES256" ∷ [];
  issuer = c.oidc_issuer_url;
  leeway = c.clock_skew;
  audience = audience_of c.oidc_audience;
}
options_of c _ = record {
  valid_methods = "RS256" ∷ "ES256" ∷ [];
  issuer = c.kubernetes_issuer;
  leeway = c.clock_skew;
  audience = audience_of c.kubernetes_audience;
}
