-- ===== src/Clients/Redis/Valid.antt =====
-- What a Redis configuration that `Validate` accepts satisfies.
use stricklysoft_core.Prelude.{
  none, ◌≡◌, ◌≢◌, ◌↔◌, inl, inr, arith, sym, subst, ap, ◌∙◌, eq_iff, ◌==◌, pos, ◌≤ℤ◌,
  lt_int-false_iff, Bool-cases,
}
use stricklysoft_core.Clients.Guards.{guard_iff, last_iff, range_iff}
use stricklysoft_core.Clients.System.{System, or_default, or_text}
use stricklysoft_core.Clients.Redis.Config.{
  Config, default_host, default_port, apply_defaults, scheme_error, field_error, validate,
}

-- The port is one, the pool holds one connection at least and no more idle ones than it may hold, and
-- no timeout is negative.
abbrev pub IsValid : Config → Type 0
IsValid c =
    ((pos 1 ≤ℤ c.port) × (c.port ≤ℤ pos 65535))
    × ((pos 1 ≤ℤ c.pool_size)
        × ((pos 0 ≤ℤ c.min_idle_conns)
            × ((c.min_idle_conns ≤ℤ c.pool_size)
                × ((pos 0 ≤ℤ c.dial_timeout)
                    × ((pos 0 ≤ℤ c.read_timeout) × (pos 0 ≤ℤ c.write_timeout))))))

field_iff : (sys : System) (c : Config) → (field_error sys c ≡ none) ↔ IsValid c
unfolding field_error
field_iff sys c = guard_iff _ _ _ (range_iff (pos 1) (pos 65535) c.port) (
    guard_iff _ _ _ (lt_int-false_iff c.pool_size (pos 1)) (
      guard_iff _ _ _ (lt_int-false_iff c.min_idle_conns (pos 0)) (
        guard_iff _ _ _ (lt_int-false_iff c.pool_size c.min_idle_conns) (
          guard_iff _ _ _ (lt_int-false_iff c.dial_timeout (pos 0)) (
            guard_iff _ _ _ (lt_int-false_iff c.read_timeout (pos 0))
              (last_iff _ _ (lt_int-false_iff c.write_timeout (pos 0))))))))

-- With all defaults.
abbrev filled : Config → Config
filled c =
    let d = apply_defaults c in
    record d { host = or_text default_host d.host; port = or_default default_port d.port }

filled_twice : (c : Config) → filled (filled c) ≡ filled c
unfolding apply_defaults
filled_twice c = ground arith

defaults_twice : (c : Config) → apply_defaults (apply_defaults c) ≡ apply_defaults c
unfolding apply_defaults
defaults_twice c = ground arith

module _ (sys : System) where
  structured : (c : Config) → c.uri ≡ "" → validate sys c ≡ (filled c, field_error sys (filled c))
  unfolding validate
  structured c u = ground (arith, eq_iff c.uri "")

  by_uri :
      (c : Config)
      → c.uri ≢ ""
      → validate sys c ≡ (apply_defaults c, scheme_error (sys.url_scheme c.uri))
  unfolding validate apply_defaults
  by_uri c u = ground (arith, eq_iff c.uri "")

  -- Without a URI, Validate accepts a Redis configuration exactly when, with the defaults that it has
  -- written into it, the port lies between 1 and 65535, the pool has room for one connection and for the
  -- idle ones, and no timeout is negative.
  pub validate_iff :
      (c : Config) → c.uri ≡ "" → ((validate sys c).1 ≡ none) ↔ IsValid (validate sys c).0
  validate_iff c u =
      subst (λ x. (x.1 ≡ none) ↔ IsValid x.0) (sym (structured c u)) (field_iff sys (filled c))

  -- A Redis configuration that Validate accepted, with the defaults that it wrote, is accepted again and
  -- not changed.
  pub validate-again :
      (c : Config)
      → (validate sys c).1 ≡ none
      → validate sys (validate sys c).0 ≡ ((validate sys c).0, none)
  unfolding apply_defaults
  validate-again c h = elim (Bool-cases (c.uri == "")) [
    | inl e ↦
        let s = structured c ((eq_iff c.uri "").0 e) in
        subst (λ x. validate sys x ≡ (x, none)) (sym (ap (λ x. x.0) s))
          (structured (filled c) ((eq_iff c.uri "").0 e)
            ∙ ap (λ x. (x, field_error sys x)) (filled_twice c)
            ∙ ap (λ o. (filled c, o)) (sym (ap (λ x. x.1) s) ∙ h))
    | inr e ↦
        let given : c.uri ≢ "" = ground (arith, eq_iff c.uri "") in
        let s = by_uri c given in
        let d = apply_defaults c in
        subst (λ x. validate sys x ≡ (x, none)) (sym (ap (λ x. x.0) s))
          (by_uri d given
            ∙ ap (λ x. (x, scheme_error (sys.url_scheme c.uri))) (defaults_twice c)
            ∙ ap (λ o. (d, o)) (sym (ap (λ x. x.1) s) ∙ h))
  ]
