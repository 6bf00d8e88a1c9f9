-- ===== src/Clients/Postgres/Valid.antt =====
-- What a configuration that `Validate` accepts satisfies.
use stricklysoft_core.Prelude.{
  true, String, Option, none, some, ◌≡◌, ◌≢◌, ◌↔◌, ◌⊎◌, inl, inr, refl, arith, sym, subst, eq_iff,
  ◌==◌, if◌then◌else◌, pos, ◌≤ℤ◌, lt_int-false_iff, Bool-cases,
}
use stricklysoft_core.Errors.{GoError}
use stricklysoft_core.Clients.Guards.{guard_iff, last_iff, empty_iff, range_iff, not_iff, both_none}
use stricklysoft_core.Clients.System.{System, or_default, or_text}
use stricklysoft_core.Clients.Postgres.Config.{
  Config, valid_ssl_mode, ssl_mode_require, default_host, default_port, apply_pool_defaults,
  scheme_error, address_error, cert_error, pool_error, ssl_error, validated, validate,
}

-- The port is one, and the database and the user are given.
abbrev pub HasAddress : Config → Type 0
HasAddress c = ((pos 1 ≤ℤ c.port) × (c.port ≤ℤ pos 65535)) × ((c.database ≢ "") × (c.user ≢ ""))

-- The pool holds one connection at least, and no more idle ones than it may hold; no duration is
-- negative.
abbrev pub HasPool : Config → Type 0
HasPool c =
    (pos 1 ≤ℤ c.max_conns)
    × ((pos 0 ≤ℤ c.min_conns)
        × ((c.min_conns ≤ℤ c.max_conns)
            × ((pos 0 ≤ℤ c.connect_timeout)
                × ((pos 0 ≤ℤ c.max_conn_lifetime)
                    × ((pos 0 ≤ℤ c.max_conn_idle_time) × (pos 0 ≤ℤ c.health_check_period))))))

-- The SSL mode is a known one, and there is no certificate or one that can be reached.
abbrev pub HasSsl : System → Config → Type 0
HasSsl sys c =
    (valid_ssl_mode c.ssl_mode ≡ true)
    × ((c.ssl_root_cert ≡ "") ⊎ (sys.stat_error c.ssl_root_cert ≡ none))

pub address_iff : (c : Config) → (address_error c ≡ none) ↔ HasAddress c
unfolding address_error
address_iff c =
    guard_iff _ _ _ (range_iff (pos 1) (pos 65535) c.port)
      (guard_iff _ _ _ (empty_iff c.database) (last_iff _ _ (empty_iff c.user)))

pub pool_iff : (sys : System) (c : Config) → (pool_error sys c ≡ none) ↔ HasPool c
unfolding pool_error
pool_iff sys c = guard_iff _ _ _ (lt_int-false_iff c.max_conns (pos 1)) (
    guard_iff _ _ _ (lt_int-false_iff c.min_conns (pos 0)) (
      guard_iff _ _ _ (lt_int-false_iff c.max_conns c.min_conns) (
        guard_iff _ _ _ (lt_int-false_iff c.connect_timeout (pos 0)) (
          guard_iff _ _ _ (lt_int-false_iff c.max_conn_lifetime (pos 0)) (
            guard_iff _ _ _ (lt_int-false_iff c.max_conn_idle_time (pos 0))
              (last_iff _ _ (lt_int-false_iff c.health_check_period (pos 0))))))))

cert_none : (path : String) (o : Option GoError) → (cert_error path o ≡ none) ↔ (o ≡ none)
cert_none path none = (λ h. refl, λ h. refl)
cert_none path (some e) = (λ h. absurd (cc), λ h. absurd (cc))

cert_iff :
    (sys : System) (path : String)
    → ((if path == "" then none else cert_error path (sys.stat_error path)) ≡ none)
      ↔ ((path ≡ "") ⊎ (sys.stat_error path ≡ none))
cert_iff sys path = elim (Bool-cases (path == "")) [
  | inl e ↦ (λ h. inl ((eq_iff path "").0 e), λ h. ground arith)
  | inr e ↦
      let given : path ≢ "" = ground (arith, eq_iff path "") in
      let found = cert_none path (sys.stat_error path) in
      (
        λ h. inr (found.0 (ground arith)),
        λ h. elim h [
          | inl s ↦ absurd (given s)
          | inr o ↦ let none_found = found.1 o in ground arith
        ],
      )
]

pub ssl_iff : (sys : System) (c : Config) → (ssl_error sys c ≡ none) ↔ HasSsl sys c
unfolding ssl_error
ssl_iff sys c = guard_iff _ _ _ (not_iff (valid_ssl_mode c.ssl_mode)) (cert_iff sys c.ssl_root_cert)

-- The state in which the tests of a configuration without a URI find it.
abbrev pub addressed : Config → Config
addressed c =
    let d = apply_pool_defaults c in
    record d { host = or_text default_host d.host; port = or_default default_port d.port }

abbrev pub IsValid : System → Config → Type 0
IsValid sys c = HasAddress c × (HasSsl sys c × HasPool c)

module _ (sys : System) where
  validated_iff :
      (c : Config) (o : Option GoError)
      → ((validated sys c o).1 ≡ none)
        ↔ ((o ≡ none) × (HasSsl sys (validated sys c o).0 × HasPool (validated sys c o).0))
  validated_iff c (some e) = (λ h. absurd (cc), λ h. absurd (cc (h.0)))
  validated_iff c none =
      let c' = record c { ssl_mode = or_text ssl_mode_require c.ssl_mode } in
      let both = both_none (ssl_error sys c') (pool_error sys c') in
      let ssl = ssl_iff sys c' in
      let pool = pool_iff sys c' in
      (
        λ h. (refl, (ssl.0 (both.0 h).0, pool.0 (both.0 h).1)),
        λ h. both.1 (ssl.1 h.1.0, pool.1 h.1.1),
      )

  address_kept : (c : Config) (o : Option GoError) → HasAddress (validated sys c o).0 ≡ HasAddress c
  address_kept c none = refl
  address_kept c (some e) = refl

  pub structured :
      (c : Config)
      → c.uri ≡ ""
      → validate sys c ≡ validated sys (addressed c) (address_error (addressed c))
  unfolding validate
  structured c u = ground (arith, eq_iff c.uri "")

  pub by_uri :
      (c : Config)
      → c.uri ≢ ""
      → validate sys c ≡ (apply_pool_defaults c, scheme_error (sys.url_scheme c.uri))
  unfolding validate apply_pool_defaults
  by_uri c u = ground (arith, eq_iff c.uri "")

  tested :
      (c : Config)
      → let x = validated sys (addressed c) (address_error (addressed c)) in
        (x.1 ≡ none) ↔ IsValid sys x.0
  tested c =
      let d = addressed c in
      let o = address_error d in
      let inner = validated_iff d o in
      let address = address_iff d in
      let kept = address_kept d o in
      (
        λ h. (subst (λ P. P) (sym kept) (address.0 (inner.0 h).0), (inner.0 h).1),
        λ h. inner.1 (address.1 (subst (λ P. P) kept h.0), h.1),
      )

  -- Without a URI, Validate accepts a configuration exactly when, with the defaults that it has written
  -- into it, the port lies between 1 and 65535, the database and the user are given, the SSL mode is
  -- known and its certificate can be reached, the pool has room for one connection and for the idle
  -- ones, and no duration is negative.
  pub validate_structured_iff :
      (c : Config) → c.uri ≡ "" → ((validate sys c).1 ≡ none) ↔ IsValid sys (validate sys c).0
  validate_structured_iff c u =
      subst (λ x. (x.1 ≡ none) ↔ IsValid sys x.0) (sym (structured c u)) (tested c)
