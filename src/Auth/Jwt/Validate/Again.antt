-- ===== src/Auth/Jwt/Validate/Again.antt =====
-- What `Validate` answers when it is given a token once more.
use stricklysoft_core.Prelude.{
  ℕ, ◌+◌, ◌≤◌, ◌<◌, ◌≡◌, refl, ap, sym, ◌∙◌, false, String, List, Option, none, some, arith,
  equal_fold,
}
use stricklysoft_core.Value.{Claims}
use stricklysoft_core.Errors.{GoError}
use stricklysoft_core.Errors.Results.{Result, ok, err}
use stricklysoft_core.Auth.Permission.{Permission}
use stricklysoft_core.Auth.Identity.{Identity}
use stricklysoft_core.Auth.TokenCache.{get, put}
use stricklysoft_core.Auth.TokenCache.Expiry.{get-put_live}
use stricklysoft_core.Auth.Jwt.Config.{
  TokenType, token_kubernetes, token_platform, token_oidc, no_token_type,
}
use stricklysoft_core.Auth.Jwt.Kubernetes.{text_or_empty}
use stricklysoft_core.Auth.Jwt.Keys.{Remote}
use stricklysoft_core.Auth.Jwt.Validator.{
  System, Token, ParserOptions, Keyfunc, JwtPackage, options_of,
}
use stricklysoft_core.Auth.Jwt.Providers.{
  parse_from, secret_key, oidc_key, kubernetes_key, listed_key, get_oidc_jwks_url,
  validate_oidc_with, validate_platform_token, validate_oidc_token, validate_kubernetes_token,
  route,
}
use stricklysoft_core.Auth.Jwt.Validate.{finished, inspected, looked_up, remember, validate}
use stricklysoft_core.Auth.Jwt.Validate.Accepts.{
  validate-IsSized, validate-looked_up, inspected-route, type_at,
}

module _ {W : Type 0} (remote : Remote W) (jwt : JwtPackage) (mapper : Claims → List Permission)
    (token : String) where
  -- A key function leaves the token cache alone.
  abbrev Leaves : Keyfunc W → Type 0
  Leaves kf = (t : Token) (s : System W) → (kf t s).1.token_cache ≡ s.token_cache

  parse-cache :
      (kf : Keyfunc W) (opts : ParserOptions) (s : System W) (o : Option Token)
      → Leaves kf
      → (parse_from remote jwt mapper token kf opts s o).1.token_cache ≡ s.token_cache
  parse-cache kf opts s none l = refl
  parse-cache kf opts s (some t) l = l t s

  listed-Leaves :
      (url : String) (missing : GoError) → Leaves (listed_key remote jwt mapper url missing)
  listed-Leaves url missing t s = ground arith

  discovery-cache :
      (s : System W) → (get_oidc_jwks_url remote jwt mapper s).1.token_cache ≡ s.token_cache
  unfolding get_oidc_jwks_url
  discovery-cache s = ground arith

  oidc-cache :
      (r : Result String) (s : System W)
      → (validate_oidc_with remote jwt mapper token r s).1.token_cache ≡ s.token_cache
  oidc-cache (err e) s = refl
  oidc-cache (ok url) s =
      let opts = options_of s.config token_oidc in
      parse-cache (oidc_key remote jwt mapper url) opts s (jwt.key_wanted token opts)
        (listed-Leaves url _)

  route-cache :
      (ty : TokenType) (s : System W)
      → (route remote jwt mapper ty token s).1.token_cache ≡ s.token_cache
  unfolding validate_platform_token validate_oidc_token validate_kubernetes_token
  route-cache token_platform s =
      let opts = options_of s.config token_platform in
      parse-cache (secret_key remote jwt mapper) opts s (jwt.key_wanted token opts) (λ t s. refl)
  route-cache token_oidc s =
      let found = get_oidc_jwks_url remote jwt mapper s in
      oidc-cache found.0 found.1 ∙ discovery-cache s
  route-cache token_kubernetes s =
      let opts = options_of s.config token_kubernetes in
      parse-cache (kubernetes_key remote jwt mapper s.config) opts s (jwt.key_wanted token opts)
        (listed-Leaves _ _)
  route-cache no_token_type s = refl

  module _ (s : System W) (u : Token) (mc : Claims) (i : Identity)
      (hu : jwt.parse_unverified token ≡ some u) (hm : u.claims ≡ some mc)
      (miss : get s.token_cache (jwt.sha256_hex token) (remote.now s.world) ≡ none)
      (h : (validate remote jwt mapper token s).0 ≡ ok i) where
    abbrev routed : System W
    routed = (route remote jwt mapper (type_at remote jwt mapper token s u mc) token s).1

    validate-inspected :
        validate remote jwt mapper token s ≡ inspected remote jwt mapper token (some u) s
    validate-inspected =
        validate-looked_up remote jwt mapper token s
          (validate-IsSized remote jwt mapper token s i h)
        ∙ ap (λ o. looked_up remote jwt mapper token o s) miss
        ∙ ap (λ o. inspected remote jwt mapper token o s) hu

    inspected-finished :
        equal_fold (text_or_empty "alg" u.header) "none" ≡ false
        → inspected remote jwt mapper token (some u) s
          ≡ finished remote jwt mapper
              (jwt.sha256_hex token)
              mc
              (route remote jwt mapper (type_at remote jwt mapper token s u mc) token s).0
              routed
    inspected-finished e = rw (e, hm)

    validate-remember : validate remote jwt mapper token s ≡ (
      ok i,
      remember remote jwt mapper (jwt.sha256_hex token) i (jwt.expiration_time mc) routed,
    )
    validate-remember =
        let seen = sym (ap (λ (r : Result Identity × System W). r.0) validate-inspected) ∙ h in
        let (e, q) = inspected-route remote jwt mapper token s u mc i hm seen in
        validate-inspected
        ∙ inspected-finished e
        ∙ ap (λ r. finished remote jwt mapper (jwt.sha256_hex token) mc r routed) q

    -- The system after the call, at a later time or with another world.
    abbrev at_world : W → System W
    at_world later = record ((validate remote jwt mapper token s).1) { world = later }

    after_get :
        (exp t : ℕ)
        → jwt.expiration_time mc ≡ some exp
        → 0 < s.token_cache.ttl
        → remote.now routed.world < exp
        → t ≤ remote.now routed.world + s.token_cache.ttl
        → t ≤ exp
        → get (validate remote jwt mapper token s).1.token_cache (jwt.sha256_hex token) t ≡ some i
    after_get exp t hx ht live within unexpired =
        let now = remote.now routed.world in
        let same = route-cache (type_at remote jwt mapper token s u mc) s in
        let cached =
          ap (λ (r : Result Identity × System W). r.1.token_cache) validate-remember
          ∙ ap (λ o. (remember remote jwt mapper (jwt.sha256_hex token) i o routed).token_cache) hx
          ∙ ap (λ c. put c (jwt.sha256_hex token) i exp now now now) same in
        ap (λ c. get c (jwt.sha256_hex token) t) cached
        ∙ get-put_live s.token_cache (jwt.sha256_hex token) i exp now now now t ht live
            (omega arith)
        ∙ ground arith

    -- A token that Validate has accepted, and whose claims have an expiration that has not passed
    -- when it is cached, is accepted once more with the same identity up to that time, within the
    -- cache's ttl, from the cache: nothing is parsed or requested, and nothing changes.
    pub validate-again :
        (exp : ℕ) (later : W)
        → jwt.expiration_time mc ≡ some exp
        → 0 < s.token_cache.ttl
        → remote.now routed.world < exp
        → remote.now later ≤ remote.now routed.world + s.token_cache.ttl
        → remote.now later ≤ exp
        → validate remote jwt mapper token (at_world later) ≡ (ok i, at_world later)
    validate-again exp later hx ht live within unexpired =
        validate-looked_up remote jwt mapper token (at_world later)
          (validate-IsSized remote jwt mapper token s i h)
        ∙ ap (λ o. looked_up remote jwt mapper token o (at_world later))
            (after_get exp (remote.now later) hx ht live within unexpired)
