-- ===== src/Auth/Jwt/Validate/Accepts.antt =====
-- What `Validate` accepts, if the JWT package checks the method and the issuer as it is documented.
use stricklysoft_core.Prelude.{
  ◌≡◌, refl, subst, Bool, true, false, ◌&&◌, ◌||◌, String, Option, none, some, List, arith, ◌==◌,
  any, Bool-cases, inl, inr, ltb, byte_length, equal_fold,
}
use stricklysoft_core.Value.{Claims}
use stricklysoft_core.Errors.Results.{Result, ok, err, ◌>>=◌}
use stricklysoft_core.Auth.Permission.{Permission}
use stricklysoft_core.Auth.Identity.{Identity}
use stricklysoft_core.Auth.TokenCache.{get}
use stricklysoft_core.Auth.Jwt.Config.{
  ValidatorConfig, TokenType, token_kubernetes, token_platform, token_oidc, no_token_type,
  detect_token_type, is_enabled, detected-is_enabled, max_token_size,
}
use stricklysoft_core.Auth.Jwt.Kubernetes.{text_or_empty}
use stricklysoft_core.Auth.Jwt.Keys.{Remote}
use stricklysoft_core.Auth.Jwt.Validator.{
  System, Token, Key, ParserOptions, Keyfunc, JwtPackage, options_of,
}
use stricklysoft_core.Auth.Jwt.Providers.{
  parse, parse_from, secret_key, oidc_key, kubernetes_key, with_platform_token, with_oidc_token,
  with_kubernetes_token, classified, get_oidc_jwks_url, validate_oidc_with, validate_platform_token,
  validate_oidc_token, validate_kubernetes_token, route,
}
use stricklysoft_core.Auth.Jwt.Validate.{finished, inspected, looked_up, validate}

-- A token whose method is one of the options' and whose issuer is theirs; the package does not look
-- at the issuer if the options' is empty.
abbrev pub allows : ParserOptions → String → String → Bool
allows opts alg issuer =
    any (λ m. m == alg) opts.valid_methods && (opts.issuer == "" || issuer == opts.issuer)

-- What the JWT package documents of `Parse` with `WithValidMethods` and `WithIssuer`.
pub record ChecksOptions (jwt : JwtPackage) : Type 0 where
  pub checks :
      (token : String) (opts : ParserOptions) (key : Option (Result Key)) (u t : Token)
      (mc : Claims)
      → jwt.parse_unverified token ≡ some u
      → u.claims ≡ some mc
      → jwt.verify token opts key ≡ ok t
      → allows opts (text_or_empty "alg" u.header) (text_or_empty "iss" mc) ≡ true

-- An enabled type, and not the answer that no type matches.
abbrev pub accepts : ValidatorConfig → TokenType → Bool
accepts c no_token_type = false
accepts c ty = is_enabled c ty

bound :
    {A B : Type 0} (m : Result A) (f : A → Result B) (b : B)
    → (m >>= f) ≡ ok b
    → (a : A) × (m ≡ ok a)
bound (ok a) f b h = (a, refl)
bound (err e) f b h = absurd (ground (arith, h))

module _ {W : Type 0} (remote : Remote W) (jwt : JwtPackage) (mapper : Claims → List Permission)
    (token : String) where
  -- A call of `verify` with these options has succeeded.
  abbrev Verified : ParserOptions → Type 0
  Verified opts = (key : Option (Result Key)) × (t : Token) × (jwt.verify token opts key ≡ ok t)

  parse-Verified :
      (kf : Keyfunc W) (opts : ParserOptions) (s : System W) (o : Option Token) (t : Token)
      → (parse_from remote jwt mapper token kf opts s o).0 ≡ ok t
      → Verified opts
  parse-Verified kf opts s none t h = (none, t, h)
  parse-Verified kf opts s (some u) t h = (some (kf u s).0, t, h)

  platform-Verified :
      (s : System W) (i : Identity)
      → (validate_platform_token remote jwt mapper token s).0 ≡ ok i
      → Verified (options_of s.config token_platform)
  unfolding validate_platform_token
  platform-Verified s i h =
      let opts = options_of s.config token_platform in
      let key = secret_key remote jwt mapper in
      let (t, e) =
        bound (parse remote jwt mapper token key opts s).0 (with_platform_token remote jwt mapper) i
          h in
      parse-Verified key opts s (jwt.key_wanted token opts) t e

  oidc-Verified :
      (r : Result String) (s : System W) (i : Identity)
      → (validate_oidc_with remote jwt mapper token r s).0 ≡ ok i
      → Verified (options_of s.config token_oidc)
  oidc-Verified (err e) s i h = absurd (ground (arith, h))
  oidc-Verified (ok url) s i h =
      let opts = options_of s.config token_oidc in
      let key = oidc_key remote jwt mapper url in
      let (t, e) =
        bound (parse remote jwt mapper token key opts s).0 (with_oidc_token remote jwt mapper) i
          h in
      parse-Verified key opts s (jwt.key_wanted token opts) t e

  classified-ok : (r : Result Token) (t : Token) → classified remote jwt mapper r ≡ ok t → r ≡ ok t
  classified-ok (ok u) t h = h
  classified-ok (err e) t h = absurd (ground (arith, h))

  kubernetes-Verified :
      (s : System W) (i : Identity)
      → (validate_kubernetes_token remote jwt mapper token s).0 ≡ ok i
      → Verified (options_of s.config token_kubernetes)
  unfolding validate_kubernetes_token
  kubernetes-Verified s i h =
      let opts = options_of s.config token_kubernetes in
      let key = kubernetes_key remote jwt mapper s.config in
      let parsed = (parse remote jwt mapper token key opts s).0 in
      let (t, e) =
        bound (classified remote jwt mapper parsed) (with_kubernetes_token remote jwt mapper) i h in
      parse-Verified key opts s (jwt.key_wanted token opts) t (classified-ok parsed t e)

  discovery-config : (s : System W) → (get_oidc_jwks_url remote jwt mapper s).1.config ≡ s.config
  unfolding get_oidc_jwks_url
  discovery-config s = ground arith

  route-Verified :
      (ty : TokenType) (s : System W) (i : Identity)
      → (route remote jwt mapper ty token s).0 ≡ ok i
      → Verified (options_of s.config ty)
  unfolding validate_oidc_token
  route-Verified token_platform s i h = platform-Verified s i h
  route-Verified token_oidc s i h =
      let found = get_oidc_jwks_url remote jwt mapper s in
      subst (λ c. Verified (options_of c token_oidc)) (discovery-config s)
        (oidc-Verified found.0 found.1 i h)
  route-Verified token_kubernetes s i h = kubernetes-Verified s i h
  route-Verified no_token_type s i h = absurd (ground (arith, h))

  route-accepts :
      (ty : TokenType) (c : ValidatorConfig) (s : System W) (i : Identity)
      → (route remote jwt mapper ty token s).0 ≡ ok i
      → is_enabled c ty ≡ true
      → accepts c ty ≡ true
  route-accepts token_platform c s i h e = e
  route-accepts token_oidc c s i h e = e
  route-accepts token_kubernetes c s i h e = e
  route-accepts no_token_type c s i h e = absurd (ground (arith, h))

  finished-ok :
      (hash : String) (mc : Claims) (r : Result Identity) (s : System W) (i : Identity)
      → (finished remote jwt mapper hash mc r s).0 ≡ ok i
      → r ≡ ok i
  finished-ok hash mc (ok j) s i h = h
  finished-ok hash mc (err e) s i h = absurd (ground (arith, h))

  abbrev pub type_at : System W → Token → Claims → TokenType
  type_at s u mc =
      detect_token_type s.config (text_or_empty "iss" mc) (text_or_empty "alg" u.header)

  -- The token is not empty and not too long.
  abbrev pub IsSized : Type 0
  IsSized = ((token == "") ≡ false) × (ltb max_token_size (byte_length token) ≡ false)

  pub validate-IsSized :
      (s : System W) (i : Identity) → (validate remote jwt mapper token s).0 ≡ ok i → IsSized
  unfolding validate
  validate-IsSized s i h = elim (Bool-cases (token == "")) [
    | inl e ↦ absurd (let h' = rw e at h in ground (arith, h'))
    | inr e ↦ elim (Bool-cases (ltb max_token_size (byte_length token))) [
      | inl f ↦ absurd (let h' = rw (e, f) at h in ground (arith, h'))
      | inr f ↦ (e, f)
    ]
  ]

  -- The branches of Validate up to the token cache.
  pub validate-looked_up :
      (s : System W)
      → IsSized
      → validate remote jwt mapper token s
        ≡ looked_up remote jwt mapper token
            (get s.token_cache (jwt.sha256_hex token) (remote.now s.world))
            s
  unfolding validate
  validate-looked_up s (e, f) = rw (e, f)

  pub inspected-route :
      (s : System W) (u : Token) (mc : Claims) (i : Identity)
      → u.claims ≡ some mc
      → (inspected remote jwt mapper token (some u) s).0 ≡ ok i
      → (equal_fold (text_or_empty "alg" u.header) "none" ≡ false)
        × ((route remote jwt mapper (type_at s u mc) token s).0 ≡ ok i)
  inspected-route s u mc i hm h =
      let alg = text_or_empty "alg" u.header in
      elim (Bool-cases (equal_fold alg "none")) [
        | inl e ↦ absurd (let h' = rw e at h in ground (arith, h'))
        | inr e ↦
            let h' = rw (e, hm) at h in
            let r = route remote jwt mapper (type_at s u mc) token s in
            (e, finished-ok (jwt.sha256_hex token) mc r.0 r.1 i h')
      ]

  -- If the JWT package checks the options that it is given, then a token that Validate accepts and
  -- that was not in the token cache has a method that is not "none", and a method and an issuer
  -- that the options of its type allow (any issuer, if the configured one is empty), and its type
  -- is one that is enabled.
  pub validate-allows :
      (s : System W) (u : Token) (mc : Claims) (i : Identity)
      → ChecksOptions jwt
      → jwt.parse_unverified token ≡ some u
      → u.claims ≡ some mc
      → get s.token_cache (jwt.sha256_hex token) (remote.now s.world) ≡ none
      → (validate remote jwt mapper token s).0 ≡ ok i
      → (equal_fold (text_or_empty "alg" u.header) "none" ≡ false)
        × (allows
              (options_of s.config (
                detect_token_type s.config (text_or_empty "iss" mc) (text_or_empty "alg" u.header)))
              (text_or_empty "alg" u.header)
              (text_or_empty "iss" mc)
            ≡ true)
        × (accepts s.config
              (detect_token_type s.config (text_or_empty "iss" mc) (text_or_empty "alg" u.header))
            ≡ true)
  validate-allows s u mc i c hu hm miss h =
      let ty = type_at s u mc in
      let looked =
        subst (λ (r : Result Identity × System W). r.0 ≡ ok i)
          (validate-looked_up s (validate-IsSized s i h)) h in
      let seen = rw (miss, hu) at looked in
      let (e, r) = inspected-route s u mc i hm seen in
      let (key, t, v) = route-Verified ty s i r in
      (
        e,
        c.checks token (options_of s.config ty) key u t mc hu hm v,
        route-accepts ty s.config s i r
            (detected-is_enabled s.config (text_or_empty "iss" mc) (text_or_empty "alg" u.header)),
      )
