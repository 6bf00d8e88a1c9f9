-- ===== src/Clients/Postgres/Trust.antt =====
-- Which certificates of a server the TLS settings let pass.
use stricklysoft_core.Prelude.{
  List, [], ◌∷◌, is_some, true, false, String, Option, none, some, ◌≡◌, ◌≢◌, ◌⊎◌, inl, inr, refl,
  arith, sym, subst, ap, ◌∙◌, eq_iff, ◌==◌, Bool-cases,
}
use stricklysoft_core.Errors.{GoError}
use stricklysoft_core.Errors.Results.{Result, ok, err}
use stricklysoft_core.Clients.System.{System}
use stricklysoft_core.Clients.Postgres.Config.{
  Config, ssl_mode_disable, ssl_mode_verify_ca, ssl_mode_verify_full, apply_pool_defaults, validate,
  scheme_error,
}
use stricklysoft_core.Clients.Postgres.Tls.{
  TlsConfig, X509, verify_chain, tls_with, parsed_pool, read_pool, tls_config, version_tls12,
}

module _ {Cert Pool : Type 0} (x509 : X509 Cert Pool) where
  -- A check of the certificates that a server presents: there must be one, and the first one is verified
  -- with those roots, the others as intermediates.
  pub record ChecksChain (roots : Pool) (check : List Cert → Option GoError) : Type 0 where
    pub none_presented : is_some (check []) ≡ true
    pub presented :
        (first : Cert) (others : List Cert)
        → check (first ∷ others) ≡ x509.verify roots others first

  verify_chain-ChecksChain : (roots : Pool) → ChecksChain roots (verify_chain x509 roots)
  verify_chain-ChecksChain roots = record {
    none_presented = refl;
    presented = λ first others. refl;
  }

  -- How a connection is verified: with the host name, with the chain alone, or not at all.
  pub data Verifies (c : Config) (pool : Pool) : TlsConfig Cert Pool → Type 0 where
    chain_and_host :
        {t : TlsConfig Cert Pool}
        → c.ssl_mode ≡ "verify-full"
        → t.insecure_skip_verify ≡ false
        → t.server_name ≡ c.host
        → t.verify_connection ≡ none
        → Verifies c pool t
    chain_alone :
        {t : TlsConfig Cert Pool} {check : List Cert → Option GoError}
        → c.ssl_mode ≡ "verify-ca"
        → t.insecure_skip_verify ≡ true
        → t.verify_connection ≡ some check
        → ChecksChain pool check
        → Verifies c pool t
    nothing :
        {t : TlsConfig Cert Pool}
        → c.ssl_mode ≢ "verify-full"
        → c.ssl_mode ≢ "verify-ca"
        → t.insecure_skip_verify ≡ true
        → t.verify_connection ≡ none
        → Verifies c pool t

  with-Verifies : (c : Config) (pool : Pool) → Verifies c pool (tls_with x509 c pool)
  with-Verifies c pool = elim (Bool-cases (c.ssl_mode == ssl_mode_verify_full)) [
    | inl f ↦
        chain_and_host ((eq_iff c.ssl_mode ssl_mode_verify_full).0 f) (ground arith) (ground arith)
          (ground arith)
    | inr f ↦ elim (Bool-cases (c.ssl_mode == ssl_mode_verify_ca)) [
      | inl a ↦
          chain_alone {check = verify_chain x509 pool} ((eq_iff c.ssl_mode ssl_mode_verify_ca).0 a)
            (ground arith) (ground arith) (verify_chain-ChecksChain pool)
      | inr a ↦
          nothing (ground (arith, eq_iff c.ssl_mode ssl_mode_verify_full))
            (ground (arith, eq_iff c.ssl_mode ssl_mode_verify_ca)) (ground arith) (ground arith)
    ]
  ]

  -- What the result of tlsConfig must satisfy.
  abbrev pub Trusted : Config → Result (Option (TlsConfig Cert Pool)) → Type 0
  Trusted c (err e) =
      ((e' : GoError) × (x509.read_file c.ssl_root_cert ≡ err e'))
      ⊎ ((pem : String) × (x509.read_file c.ssl_root_cert ≡ ok pem) × (x509.parse_pem pem ≡ none))
  Trusted c (ok none) = (c.ssl_root_cert ≡ "") ⊎ (c.ssl_mode ≡ "disable")
  Trusted c (ok (some t)) =
      (pem : String) × (x509.read_file c.ssl_root_cert ≡ ok pem)
      × (x509.parse_pem pem ≡ some t.root_cas)
      × (t.min_version ≡ 0x0303)
      × Verifies c t.root_cas t

  root_cas_lem : (c : Config) (pool : Pool) → (tls_with x509 c pool).root_cas ≡ pool
  root_cas_lem c pool = ground arith

  min_version_lem : (c : Config) (pool : Pool) → (tls_with x509 c pool).min_version ≡ version_tls12
  min_version_lem c pool = ground arith

  parsed-Trusted :
      (c : Config) (pem : String)
      → x509.read_file c.ssl_root_cert ≡ ok pem
      → (o : Option Pool) → x509.parse_pem pem ≡ o
      → Trusted c (parsed_pool x509 c o)
  parsed-Trusted c pem r none p = inr (pem, r, p)
  parsed-Trusted c pem r (some pool) p =
      let same = sym (root_cas_lem c pool) in
      let verifies =
        subst (λ roots. Verifies c roots (tls_with x509 c pool)) same (with-Verifies c pool) in
      (pem, r, p ∙ ap some same, min_version_lem c pool, verifies)

  read-Trusted :
      (c : Config) (r : Result String)
      → x509.read_file c.ssl_root_cert ≡ r
      → Trusted c (read_pool x509 c r)
  read-Trusted c (err e) h = inl (e, h)
  read-Trusted c (ok pem) h = parsed-Trusted c pem h (x509.parse_pem pem) refl

  -- tlsConfig fails only if the certificate file cannot be read or holds no certificate, and gives no
  -- settings only without a certificate file or with the mode disable. Settings that it gives hold the
  -- certificates of that file as roots and require TLS 1.2. In the mode verify-full the verification of
  -- Go's TLS package is left on, with the host's name. In the mode verify-ca it is off, and instead a
  -- check refuses a server that presents no certificate and verifies the first one presented with those
  -- roots and the others as intermediates. In any other mode, none given included, it is off and there is
  -- no check.
  pub tls_config_lem : (c : Config) → Trusted c (tls_config x509 c)
  unfolding tls_config
  tls_config_lem c = elim (Bool-cases (c.ssl_root_cert == "")) [
    | inl n ↦
        let e : ok none ≡ tls_config x509 c = ground arith in
        subst (Trusted c) e (inl ((eq_iff c.ssl_root_cert "").0 n))
    | inr n ↦ elim (Bool-cases (c.ssl_mode == ssl_mode_disable)) [
      | inl d ↦
          let e : ok none ≡ tls_config x509 c = ground arith in
          subst (Trusted c) e (inr ((eq_iff c.ssl_mode ssl_mode_disable).0 d))
      | inr d ↦
          let e : read_pool x509 c (x509.read_file c.ssl_root_cert) ≡ tls_config x509 c =
            ground arith in
          subst (Trusted c) e (read-Trusted c (x509.read_file c.ssl_root_cert) refl)
    ]
  ]

  unverified :
      (c : Config) (pem : String) (pool : Pool)
      → c.ssl_mode ≡ ""
      → c.ssl_root_cert ≢ ""
      → x509.read_file c.ssl_root_cert ≡ ok pem
      → x509.parse_pem pem ≡ some pool
      → tls_config x509 c ≡ ok (some (tls_with x509 c pool))
  unfolding tls_config
  unverified c pem pool m r f k =
      let enabled : (c.ssl_mode == ssl_mode_disable) ≡ false =
        subst (λ x. (x == ssl_mode_disable) ≡ false) (sym m) refl in
      ground (arith, eq_iff c.ssl_root_cert "")

  known_scheme :
      (scheme : String)
      → (scheme ≡ "postgres") ⊎ (scheme ≡ "postgresql")
      → scheme_error (ok scheme) ≡ none
  known_scheme scheme (inl e) = ap (λ s. scheme_error (ok s)) e
  known_scheme scheme (inr e) = ap (λ s. scheme_error (ok s)) e

  -- Where a configuration has a URI and a certificate but no SSL mode of its own, Validate accepts it
  -- without giving it one, if the scheme is postgres or postgresql, and the TLS settings verify no certificate, whatever
  -- mode the URI asks for.
  pub uri-unverified :
      (sys : System) (c : Config) (scheme pem : String) (pool : Pool)
      → c.uri ≢ ""
      → sys.url_scheme c.uri ≡ ok scheme
      → (scheme ≡ "postgres") ⊎ (scheme ≡ "postgresql")
      → c.ssl_mode ≡ ""
      → c.ssl_root_cert ≢ ""
      → x509.read_file c.ssl_root_cert ≡ ok pem
      → x509.parse_pem pem ≡ some pool
      → ((validate sys c).1 ≡ none)
        × ((t : TlsConfig Cert Pool) × (tls_config x509 (validate sys c).0 ≡ ok (some t))
            × (t.insecure_skip_verify ≡ true)
            × (t.verify_connection ≡ none))
  unfolding validate apply_pool_defaults
  uri-unverified sys c scheme pem pool u s known m r f k =
      let d = apply_pool_defaults c in
      let passes : scheme_error (sys.url_scheme c.uri) ≡ none =
        ap scheme_error s ∙ known_scheme scheme known in
      let accepted : validate sys c ≡ (d, none) = ground (arith, eq_iff c.uri "") in
      let full : (c.ssl_mode == ssl_mode_verify_full) ≡ false =
        subst (λ x. (x == ssl_mode_verify_full) ≡ false) (sym m) refl in
      let ca : (c.ssl_mode == ssl_mode_verify_ca) ≡ false =
        subst (λ x. (x == ssl_mode_verify_ca) ≡ false) (sym m) refl in
      (
        ap (λ x. x.1) accepted,
        (
          tls_with x509 d pool,
          ap (λ x. tls_config x509 x.0) accepted ∙ unverified d pem pool m r f k,
          ground arith,
          ground arith,
        ),
      )
