-- ===== src/Clients/Neo4j/Valid.antt =====
-- What a Neo4j configuration that `Validate` accepts satisfies.
use stricklysoft_core.Prelude.{
  true, String, Option, none, some, ◌≡◌, ◌≢◌, ◌↔◌, refl, arith, sym, subst, ap, ◌∙◌, eq_iff, pos,
  ◌≤ℤ◌, lt_int-false_iff,
}
use stricklysoft_core.Errors.{GoError}
use stricklysoft_core.Errors.Results.{Result, ok, err}
use stricklysoft_core.Clients.Guards.{guard_iff, last_iff, range_iff, empty_iff}
use stricklysoft_core.Clients.System.{System, or_default, or_text}
use stricklysoft_core.Clients.Neo4j.Config.{
  Config, default_host, default_port, default_scheme, valid_scheme, apply_pool_defaults, with_uri,
  port_error, field_error, validated, validate,
}

abbrev pub HasPort : Config → Type 0
HasPort c = (pos 1 ≤ℤ c.port) × (c.port ≤ℤ pos 65535)

-- The database and the user are given, the pool has room for a connection, no duration is negative.
abbrev pub HasFields : Config → Type 0
HasFields c =
    (c.database ≢ "")
    × ((c.username ≢ "")
        × ((pos 1 ≤ℤ c.max_connection_pool_size)
            × ((pos 0 ≤ℤ c.max_connection_lifetime)
                × ((pos 0 ≤ℤ c.connection_acquisition_timeout) × (pos 0 ≤ℤ c.connect_timeout)))))

abbrev pub IsValid : Config → Type 0
IsValid c = HasPort c × HasFields c

port_iff : (c : Config) → (port_error c ≡ none) ↔ HasPort c
unfolding port_error
port_iff c = last_iff _ _ (range_iff (pos 1) (pos 65535) c.port)

field_iff : (sys : System) (c : Config) → (field_error sys c ≡ none) ↔ HasFields c
unfolding field_error
field_iff sys c = guard_iff _ _ _ (empty_iff c.database) (
    guard_iff _ _ _ (empty_iff c.username) (
      guard_iff _ _ _ (lt_int-false_iff c.max_connection_pool_size (pos 1)) (
        guard_iff _ _ _ (lt_int-false_iff c.max_connection_lifetime (pos 0)) (
          guard_iff _ _ _ (lt_int-false_iff c.connection_acquisition_timeout (pos 0))
            (last_iff _ _ (lt_int-false_iff c.connect_timeout (pos 0)))))))

-- The state in which the tests of a configuration without a URI find it.
abbrev addressed : Config → Config
addressed c =
    let d = apply_pool_defaults c in
    record d { host = or_text default_host d.host; port = or_default default_port d.port }

module _ (sys : System) where
  validated_iff :
      (c : Config) (o : Option GoError)
      → ((validated sys c o).1 ≡ none) ↔ ((o ≡ none) × HasFields (validated sys c o).0)
  validated_iff c (some e) = (λ h. absurd (cc), λ h. absurd (cc (h.0)))
  validated_iff c none =
      let inner = field_iff sys (record c { scheme = or_text default_scheme c.scheme }) in
      (λ h. (refl, inner.0 h), λ h. inner.1 h.1)

  port_kept : (c : Config) (o : Option GoError) → HasPort (validated sys c o).0 ≡ HasPort c
  port_kept c none = refl
  port_kept c (some e) = refl

  structured :
      (c : Config)
      → c.uri ≡ ""
      → validate sys c ≡ validated sys (addressed c) (port_error (addressed c))
  unfolding validate
  structured c u = ground (arith, eq_iff c.uri "")

  tested :
      (c : Config)
      → let x = validated sys (addressed c) (port_error (addressed c)) in (x.1 ≡ none) ↔ IsValid x.0
  tested c =
      let d = addressed c in
      let inner = validated_iff d (port_error d) in
      let port = port_iff d in
      let kept = port_kept d (port_error d) in
      (
        λ h. (subst (λ P. P) (sym kept) (port.0 (inner.0 h).0), (inner.0 h).1),
        λ h. inner.1 (port.1 (subst (λ P. P) kept h.0), h.1),
      )

  -- Without a URI, Validate accepts a Neo4j configuration exactly when, with the defaults that it has
  -- written into it, the port lies between 1 and 65535, the database and the user are given, the pool
  -- has room for a connection, and no duration is negative. The scheme is not looked at.
  pub validate_iff :
      (c : Config) → c.uri ≡ "" → ((validate sys c).1 ≡ none) ↔ IsValid (validate sys c).0
  validate_iff c u = subst (λ x. (x.1 ≡ none) ↔ IsValid x.0) (sym (structured c u)) (tested c)

  uri_found :
      (c : Config) (r : Result String)
      → ((with_uri c r).1 ≡ none)
        ↔ ((scheme : String) × (r ≡ ok scheme) × (valid_scheme scheme ≡ true))
  uri_found c (err e) = (λ h. absurd (cc), λ h. absurd (cc (h.1)))
  uri_found c (ok scheme) = (
    λ h. (scheme, refl, ground arith),
    λ h.
        let same : scheme ≡ h.0 = ground (arith, h.1) in
        let known : valid_scheme scheme ≡ true = ap valid_scheme same ∙ h.2 in ground arith,
  )

  -- With a URI, Validate accepts a Neo4j configuration exactly when the URI can be parsed and its scheme
  -- is one of the four known ones.
  pub validate-uri_iff :
      (c : Config)
      → c.uri ≢ ""
      → ((validate sys c).1 ≡ none)
        ↔ ((scheme : String) × (sys.url_scheme c.uri ≡ ok scheme) × (valid_scheme scheme ≡ true))
  unfolding validate apply_pool_defaults
  validate-uri_iff c u =
      let e : validate sys c ≡ with_uri (apply_pool_defaults c) (sys.url_scheme c.uri) =
        ground (arith, eq_iff c.uri "") in
      subst
        (λ x.
          (x.1 ≡ none)
          ↔ ((scheme : String) × (sys.url_scheme c.uri ≡ ok scheme) × (valid_scheme scheme ≡ true)))
        (sym e) (uri_found (apply_pool_defaults c) (sys.url_scheme c.uri))
