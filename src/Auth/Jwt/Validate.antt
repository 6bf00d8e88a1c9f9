-- ===== src/Auth/Jwt/Validate.antt =====
-- pkg/auth/jwt.go: `Validate`. The clock stands still while the token cache reads it.
pub mod Accepts
pub mod Again
use Prim.Native.String.{◌++◌}
use stricklysoft_core.Prelude.{
  ℕ, Bool, true, false, ◌&&◌, not, String, Option, none, some, List, [], ◌∷◌, ◌==◌, if◌then◌else◌,
  ltb, Dict, insert_all, ℤ, magnitude, byte_length, equal_fold, trim_right,
}
use stricklysoft_core.Value.{Value, Claims}
use stricklysoft_core.Errors.{GoError, Error, plain, platform, error, caused_by, new}
use stricklysoft_core.Errors.Codes.{Code, code_authentication, code_authentication_invalid}
use stricklysoft_core.Errors.Results.{Result, ok, err, ◌>>=◌}
use stricklysoft_core.Auth.Permission.{Permission}
use stricklysoft_core.Auth.Identity.{
  Identity, basic, service, user, new_basic_identity, new_service_identity, new_user_identity,
  type_service, type_user,
}
use stricklysoft_core.Auth.TokenCache.{TokenCache, new_token_cache, get, put}
use stricklysoft_core.Auth.Jwt.Config.{
  TokenType, token_kubernetes, token_platform, token_oidc, no_token_type, ValidatorConfig,
  max_token_size, default_sa_token_path, validate_config, detect_token_type,
}
use stricklysoft_core.Auth.Jwt.Classify.{classify_error}
use stricklysoft_core.Auth.Jwt.Kubernetes.{text_or_empty, parse_service_account}
use stricklysoft_core.Auth.Jwt.Keys.{
  PublicKey, Remote, JwksCache, new_jwks_cache, get_body, get_key, wrap_result, OidcDiscovery,
}
use stricklysoft_core.Auth.Jwt.Validator.{
  System, Token, Key, hmac, public, ParserOptions, Keyfunc, JwtPackage, options_of,
}
use stricklysoft_core.Auth.Jwt.Identities.{
  invalid, as_invalid, map_result, valid_claims, platform_identity, oidc_identity,
  kubernetes_identity,
}
use stricklysoft_core.Auth.Jwt.Providers.{
  route, validate_platform_token, validate_oidc_token, validate_kubernetes_token,
}

module _ {W : Type 0} (remote : Remote W) (jwt : JwtPackage)
    (mapper : Claims → List Permission) where
  abbrev pub remember : String → Identity → Option ℕ → System W → System W
  remember hash identity none s = s
  remember hash identity (some exp) s =
      let now = remote.now s.world in
      record s { token_cache = put s.token_cache hash identity exp now now now }

  -- The rest of `Validate` behind the switch.
  abbrev pub finished : String → Claims → Result Identity → System W → Result Identity × System W
  finished hash mc (err e) s = (err (platform (classify_error e)), s)
  finished hash mc (ok identity) s =
      (ok identity, remember hash identity (jwt.expiration_time mc) s)

  -- The part of `Validate` behind the check of the algorithm.
  abbrev pub with_claims : String → String → Option Claims → System W → Result Identity × System W
  with_claims token alg none s = (invalid "auth: unable to extract claims", s)
  with_claims token alg (some mc) s =
      let token_type = detect_token_type s.config (text_or_empty "iss" mc) alg in
      let (identity, s') = route remote jwt mapper token_type token s in
      finished (jwt.sha256_hex token) mc identity s'

  -- The part of `Validate` behind `ParseUnverified`.
  abbrev pub inspected : String → Option Token → System W → Result Identity × System W
  inspected token none s = (invalid "auth: token is malformed", s)
  inspected token (some t) s =
      let alg = text_or_empty "alg" t.header in
      if equal_fold alg "none"
      then (invalid "auth: algorithm 'none' is not permitted", s)
      else with_claims token alg t.claims s

  -- The part of `Validate` behind the look into the token cache.
  abbrev pub looked_up : String → Option Identity → System W → Result Identity × System W
  looked_up token (some identity) s = (ok identity, s)
  looked_up token none s = inspected token (jwt.parse_unverified token) s

  -- `Validate`
  unfoldable pub validate : String → System W → Result Identity × System W
  unfolding get put detect_token_type equal_fold byte_length validate_platform_token
      validate_oidc_token validate_kubernetes_token classify_error
  validate token s =
      if token == ""
      then (invalid "auth: token must not be empty", s)
      else if ltb max_token_size (byte_length token)
      then (invalid "auth: token exceeds maximum size", s)
      else looked_up token (get s.token_cache (jwt.sha256_hex token) (remote.now s.world)) s
