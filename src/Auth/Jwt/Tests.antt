-- ===== src/Auth/Jwt/Tests.antt =====
-- Runs of the JWT validator on small inputs, and the theorems at concrete inputs.
use Prim.Native.String.{◌++◌}
use stricklysoft_core.Prelude.{
  ℕ, ◌+◌, ◌≡◌, ◌↔◌, refl, sym, ap, ◌∙◌, true, false, String, Option, none, some, List, [], ◌∷◌,
  arith, if◌then◌else◌, pos, lookup, insert, insert_all, decode_base64, split, equal_fold,
}
use stricklysoft_core.Value.{string, object, member, no_members, Claims}
use stricklysoft_core.Errors.{GoError, named, wrapped, code_of}
use stricklysoft_core.Errors.Codes.{code_authentication_expired}
use stricklysoft_core.Errors.Results.{ok, err}
use stricklysoft_core.Auth.Permission.{Permission}
use stricklysoft_core.Auth.Identity.{Identity, service}
use stricklysoft_core.Auth.TokenCache.{get, new_token_cache}
use stricklysoft_core.Auth.Jwt.Config.{
  ValidatorConfig, default_validator_config, validate_config, detect_token_type, IsUsable,
  is_enabled, issuer_of, knows_issuer, validate_config_iff, detect_token_type_lem,
}
use stricklysoft_core.Errors.Chains.{is_error}
use stricklysoft_core.Auth.Jwt.Classify.{classify_error}
use stricklysoft_core.Auth.Jwt.Kubernetes.{text_or_empty, resolve}
use stricklysoft_core.Auth.Jwt.Kubernetes.Sources.{first_given, sources, resolve_lem}
use stricklysoft_core.Auth.Jwt.Keys.{rsa, JwkKey, Remote, Response, new_jwks_cache, get_key}
use stricklysoft_core.Auth.Jwt.Keys.Caching.{get_key-again}
use stricklysoft_core.Auth.Jwt.Validator.{System, Token, ParserOptions, JwtPackage, options_of}
use stricklysoft_core.Auth.Jwt.Validate.{validate}
use stricklysoft_core.Auth.Jwt.Validate.Accepts.{accepts, allows, ChecksOptions, validate-allows}
use stricklysoft_core.Auth.Jwt.Validate.Again.{validate-again}

abbrev config : ValidatorConfig
config = record default_validator_config {
  enable_platform = true;
  platform_signing_key = "0123456789abcdef0123456789abcdef";
}

validate_config_iff_example : (validate_config config ≡ none) ↔ IsUsable config
validate_config_iff_example = validate_config_iff config

detect_token_type_lem_example :
    (is_enabled config (detect_token_type config "stricklysoft-platform" "RS256") ≡ true)
    × ((if knows_issuer config "stricklysoft-platform"
          then issuer_of config (detect_token_type config "stricklysoft-platform" "RS256")
          else "stricklysoft-platform")
        ≡ "stricklysoft-platform")
detect_token_type_lem_example = detect_token_type_lem config "stricklysoft-platform" "RS256"

abbrev expired : GoError
expired = wrapped "token has invalid claims" (named "jwt.ErrTokenExpired" "token is expired")

expired_code : code_of (classify_error expired) ≡ code_authentication_expired
unfolding classify_error is_error
expired_code = refl

abbrev mixed : Claims
mixed =
    ("kubernetes.io", object (member "namespace" (string "prod") no_members))
    ∷ ("sub", string "system:serviceaccount:dev:builder")
    ∷ []

resolve_lem_example :
    ((resolve mixed).namespace
      ≡ first_given (sources (λ n. n.namespace) "kubernetes.io/serviceaccount/namespace" mixed))
    × ((resolve mixed).sa_name
        ≡ first_given
            (sources (λ n. n.sa_name) "kubernetes.io/serviceaccount/service-account.name" mixed))
resolve_lem_example = resolve_lem mixed

mixed_resolved : resolve mixed ≡ record { namespace = "prod"; sa_name = "builder" }
unfolding lookup split
mixed_resolved = refl

abbrev listed : JwkKey
listed = record {
  kty = "RSA";
  kid = "k1";
  alg = "RS256";
  key_use = "sig";
  n = "AQAB";
  e = "AQAB";
  crv = "";
  x = "";
  y = "";
}

-- The world is the clock; the endpoint always lists the one key.
abbrev answer : Response ℕ
answer = record { status = 200; body = λ _ w. (ok "{}", w) }

abbrev endpoint : Remote ℕ
endpoint = record {
  now = λ w. w;
  new_request = λ _. none;
  send = λ _ w. (ok answer, w + 1);
  unmarshal_keys = λ _. ok (listed ∷ []);
  unmarshal_discovery = λ _. ok (record { issuer = "https://id"; jwks_uri = "https://id/keys" });
  decimal = λ _. "200";
}

get_key-again_example :
    get_key endpoint
      (get_key endpoint (new_jwks_cache 100) "https://id/keys" "k1" 7).1
      "https://id/keys"
      "k1"
      60
    ≡ (
      ok (rsa 65537 (pos 65537)),
      (get_key endpoint (new_jwks_cache 100) "https://id/keys" "k1" 7).1,
      60,
    )
unfolding get_key lookup decode_base64 insert
get_key-again_example =
    get_key-again endpoint "https://id/keys" "k1" (rsa 65537 (pos 65537)) (new_jwks_cache 100) 7 60
      refl (omega arith)

abbrev token_claims : Claims
token_claims =
    ("iss", string "stricklysoft-platform")
    ∷ ("sub", string "s1")
    ∷ ("service_name", string "billing")
    ∷ []

abbrev signed : Token
signed = record {
  header = ("alg", string "HS256") ∷ [];
  claims = some token_claims;
  is_valid = true;
}

-- A JWT package for which every text is that one token, with no signature to check.
abbrev jwt_package : JwtPackage
jwt_package = record {
  parse_unverified = λ _. some signed;
  key_wanted = λ _ _. some signed;
  verify = λ _ opts _.
      if allows opts "HS256" "stricklysoft-platform"
      then ok signed
      else err (named "jwt.ErrTokenInvalidClaims" "token has invalid claims");
  expiration_time = λ _. some 500;
  sha256_hex = λ s. "h" ++ s;
}

abbrev nobody : Claims → List Permission
nobody claims = []

abbrev system : System ℕ
system = record {
  config = config;
  token_cache = new_token_cache 300 10;
  jwks_cache = new_jwks_cache 100;
  oidc_jwks_url = "";
  oidc_discovered = false;
  world = 100;
}

abbrev alg_of : Option Token → String
alg_of none = ""
alg_of (some t) = text_or_empty "alg" t.header

abbrev iss_of : Option Claims → String
iss_of none = ""
iss_of (some mc) = text_or_empty "iss" mc

abbrev claims_in : Option Token → Option Claims
claims_in none = none
claims_in (some t) = t.claims

verified_allows :
    (opts : ParserOptions) (t : Token)
    → jwt_package.verify "t" opts none ≡ ok t
    → allows opts "HS256" "stricklysoft-platform" ≡ true
verified_allows opts t v = ground (arith, v)

jwt_package-ChecksOptions : ChecksOptions jwt_package
unfolding lookup
jwt_package-ChecksOptions = record {
  checks = λ token opts key u t mc hu hm v.
      let alg : text_or_empty "alg" u.header ≡ "HS256" = ap alg_of (sym hu) in
      let iss : text_or_empty "iss" mc ≡ "stricklysoft-platform" =
        ap iss_of (sym hm ∙ ap claims_in (sym hu)) in
      rw (alg, iss) (verified_allows opts t v);
}

abbrev billing : Identity
billing = service (record {
  id = "s1";
  service_name = "billing";
  namespace = "";
  claims = token_claims;
  permissions = [];
})

billing_validates : (validate endpoint jwt_package nobody "t" system).0 ≡ ok billing
unfolding validate lookup new_token_cache insert_all insert
billing_validates = refl

not_cached : get system.token_cache "ht" 100 ≡ none
unfolding get lookup new_token_cache
not_cached = refl

validate-allows_example :
    (equal_fold (text_or_empty "alg" signed.header) "none" ≡ false)
    × (allows
          (options_of config (
            detect_token_type config
              (text_or_empty "iss" token_claims)
              (text_or_empty "alg" signed.header)))
          (text_or_empty "alg" signed.header)
          (text_or_empty "iss" token_claims)
        ≡ true)
    × (accepts config (
          detect_token_type config
            (text_or_empty "iss" token_claims)
            (text_or_empty "alg" signed.header))
        ≡ true)
validate-allows_example =
    validate-allows endpoint jwt_package nobody "t" system signed token_claims billing
      jwt_package-ChecksOptions refl refl not_cached billing_validates

abbrev validated : System ℕ
validated = (validate endpoint jwt_package nobody "t" system).1

validate-again_example :
    validate endpoint jwt_package nobody "t" (record validated { world = 350 })
    ≡ (ok billing, record validated { world = 350 })
unfolding validate lookup new_token_cache
validate-again_example =
    validate-again endpoint jwt_package nobody "t" system signed token_claims billing refl refl
      not_cached billing_validates 500 350 refl (omega arith) (omega arith) (omega arith)
      (omega arith)
