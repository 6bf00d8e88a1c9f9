-- ===== src/Auth/Jwt/Providers.antt =====
-- pkg/auth/jwt.go: the validators of the three token types, and the switch between them.
use Prim.Native.String.{◌++◌}
use stricklysoft_core.Prelude.{
  true, ◌&&◌, not, String, Option, none, some, List, [], ◌==◌, if◌then◌else◌, insert_all,
  trim_right,
}
use stricklysoft_core.Value.{Claims}
use stricklysoft_core.Errors.{GoError, plain, platform, error, caused_by, new}
use stricklysoft_core.Errors.Codes.{code_authentication, code_authentication_invalid}
use stricklysoft_core.Errors.Results.{Result, ok, err, ◌>>=◌}
use stricklysoft_core.Auth.Permission.{Permission}
use stricklysoft_core.Auth.Identity.{Identity}
use stricklysoft_core.Auth.Jwt.Config.{
  TokenType, token_kubernetes, token_platform, token_oidc, no_token_type, ValidatorConfig,
}
use stricklysoft_core.Auth.Jwt.Classify.{classify_error}
use stricklysoft_core.Auth.Jwt.Kubernetes.{text_or_empty}
use stricklysoft_core.Auth.Jwt.Keys.{Remote, get_body, get_key, wrap_result, OidcDiscovery}
use stricklysoft_core.Auth.Jwt.Validator.{
  System, Token, hmac, public, ParserOptions, Keyfunc, JwtPackage, options_of,
}
use stricklysoft_core.Auth.Jwt.Identities.{
  invalid, map_result, valid_claims, platform_identity, oidc_identity, kubernetes_identity,
}

abbrev with_jwks_uri : OidcDiscovery → Result OidcDiscovery
with_jwks_uri discovery =
    if discovery.jwks_uri == ""
    then err (plain "auth: OIDC discovery document missing jwks_uri")
    else ok discovery

module _ {W : Type 0} (remote : Remote W) (jwt : JwtPackage)
    (mapper : Claims → List Permission) where
  -- `fetchOIDCDiscovery`
  unfoldable pub fetch_oidc_discovery : String → W → Result OidcDiscovery × W
  unfolding get_body trim_right
  fetch_oidc_discovery issuer_url w =
      let url = trim_right "/" issuer_url ++ "/.well-known/openid-configuration" in
      let (body, w') = get_body remote "OIDC discovery" url w in
      (
        (do
          text ← body
          discovery ←
              wrap_result "auth: failed to parse OIDC discovery JSON"
                (remote.unmarshal_discovery text)
          with_jwks_uri discovery),
        w',
      )

  -- `getOIDCJWKSURL`
  unfoldable pub get_oidc_jwks_url : System W → Result String × System W
  unfolding fetch_oidc_discovery
  get_oidc_jwks_url s =
      let (discovery, w) = fetch_oidc_discovery s.config.oidc_issuer_url s.world in
      if s.oidc_discovered && not (s.oidc_jwks_url == "")
      then (ok s.oidc_jwks_url, s)
      else elim discovery [
        | err e ↦ (err e, record s { world = w })
        | ok d ↦ (
          ok d.jwks_uri,
          record s { oidc_jwks_url = d.jwks_uri; oidc_discovered = true; world = w },
        )
      ]

  abbrev pub parse_from :
      String → Keyfunc W → ParserOptions → System W → Option Token → Result Token × System W
  parse_from token keyfunc opts s none = (jwt.verify token opts none, s)
  parse_from token keyfunc opts s (some t) =
      let (key, s') = keyfunc t s in (jwt.verify token opts (some key), s')

  -- `jwt.Parse`
  abbrev pub parse : String → Keyfunc W → ParserOptions → System W → Result Token × System W
  parse token keyfunc opts s = parse_from token keyfunc opts s (jwt.key_wanted token opts)

  -- The key functions: the shared secret, and the key that the token's header names.
  abbrev pub secret_key : Keyfunc W
  secret_key t s = (ok (hmac s.config.platform_signing_key), s)

  abbrev pub listed_key : String → GoError → Keyfunc W
  listed_key url missing t s =
      let kid = text_or_empty "kid" t.header in
      let (key, c, w) = get_key remote s.jwks_cache url kid s.world in
      if kid == ""
      then (err missing, s)
      else (map_result public key, record s { jwks_cache = c; world = w })

  -- The part of `validatePlatformToken` behind `jwt.Parse`.
  abbrev pub with_platform_token : Token → Result Identity
  with_platform_token t = do
    claims ← valid_claims "auth: invalid platform token claims" t
    platform_identity claims (mapper claims)

  -- `validatePlatformToken`
  unfoldable pub validate_platform_token : String → System W → Result Identity × System W
  unfolding platform_identity
  validate_platform_token token s =
      let (parsed, s') = parse token secret_key (options_of s.config token_platform) s in
      (parsed >>= with_platform_token, s')

  -- The part of `validateOIDCToken` behind `jwt.Parse`.
  abbrev pub with_oidc_token : Token → Result Identity
  with_oidc_token t = do
    claims ← valid_claims "auth: invalid OIDC token claims" t
    oidc_identity claims (mapper claims)

  abbrev pub oidc_key : String → Keyfunc W
  oidc_key url = listed_key url (plain "auth: token header missing kid")

  -- The part of `validateOIDCToken` behind the discovery.
  abbrev pub validate_oidc_with : String → Result String → System W → Result Identity × System W
  validate_oidc_with token (err e) s =
      (err (platform (error code_authentication "auth: OIDC discovery failed" (caused_by e) [])), s)
  validate_oidc_with token (ok url) s =
      let (parsed, s') = parse token (oidc_key url) (options_of s.config token_oidc) s in
      (parsed >>= with_oidc_token, s')

  -- `validateOIDCToken`
  unfoldable pub validate_oidc_token : String → System W → Result Identity × System W
  unfolding get_oidc_jwks_url oidc_identity
  validate_oidc_token token s =
      let (url, s') = get_oidc_jwks_url s in validate_oidc_with token url s'

  abbrev kubernetes_claims : Token → Result Claims
  kubernetes_claims t = elim t.claims [
    | none ↦ invalid "auth: invalid kubernetes token claims"
    | some mc ↦ ok (insert_all mc [])
  ]

  -- The part of `validateKubernetesToken` behind `jwt.Parse`.
  abbrev pub with_kubernetes_token : Token → Result Identity
  with_kubernetes_token t = do
    claims ← kubernetes_claims t
    kubernetes_identity claims (mapper claims)

  abbrev pub classified : Result Token → Result Token
  classified (ok t) = ok t
  classified (err e) = err (platform (classify_error e))

  abbrev pub kubernetes_key : ValidatorConfig → Keyfunc W
  kubernetes_key c =
      listed_key (trim_right "/" c.kubernetes_issuer ++ "/openid/v1/jwks")
        (platform (new code_authentication_invalid "auth: kubernetes token missing kid header"))

  -- `validateKubernetesToken`
  unfoldable pub validate_kubernetes_token : String → System W → Result Identity × System W
  unfolding classify_error kubernetes_identity trim_right
  validate_kubernetes_token token s =
      let (parsed, s') =
        parse token (kubernetes_key s.config) (options_of s.config token_kubernetes) s in
      (classified parsed >>= with_kubernetes_token, s')

  -- The switch of `Validate`
  abbrev pub route : TokenType → String → System W → Result Identity × System W
  route token_platform token s = validate_platform_token token s
  route token_oidc token s = validate_oidc_token token s
  route token_kubernetes token s = validate_kubernetes_token token s
  route no_token_type token s =
      (err (platform (new code_authentication "auth: no matching validator for token")), s)
