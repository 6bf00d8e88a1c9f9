-- ===== src/Clients/Postgres/Revalidate.antt =====
-- What `Validate` does with a configuration that it has accepted.
use stricklysoft_core.Prelude.{
  Option, none, some, ◌≡◌, ◌≢◌, inl, inr, refl, arith, sym, subst, ap, ◌∙◌, eq_iff, ◌==◌,
  Bool-cases,
}
use stricklysoft_core.Errors.{GoError}
use stricklysoft_core.Errors.Checks.{first_some}
use stricklysoft_core.Clients.Guards.{both_none}
use stricklysoft_core.Clients.System.{System, or_text}
use stricklysoft_core.Clients.Postgres.Config.{
  Config, ssl_mode_require, apply_pool_defaults, scheme_error, address_error, pool_error, ssl_error,
  validated, validate,
}
use stricklysoft_core.Clients.Postgres.Valid.{
  IsValid, address_iff, pool_iff, ssl_iff, addressed, structured, by_uri, validate_structured_iff,
}

-- With all defaults.
abbrev filled : Config → Config
filled c = let d = addressed c in record d { ssl_mode = or_text ssl_mode_require d.ssl_mode }

addressed-filled : (c : Config) → addressed (filled c) ≡ filled c
unfolding apply_pool_defaults
addressed-filled c = ground arith

ssl-filled :
    (c : Config)
    → record (filled c) { ssl_mode = or_text ssl_mode_require (filled c).ssl_mode } ≡ filled c
unfolding apply_pool_defaults
ssl-filled c = ground arith

defaults_twice : (c : Config) → apply_pool_defaults (apply_pool_defaults c) ≡ apply_pool_defaults c
unfolding apply_pool_defaults
defaults_twice c = ground arith

module _ (sys : System) where
  settled :
      (c : Config) (o : Option GoError)
      → (validated sys c o).1 ≡ none
      → (validated sys c o).0 ≡ record c { ssl_mode = or_text ssl_mode_require c.ssl_mode }
  settled c none h = refl
  settled c (some e) h = cc

  -- The tests at a configuration that has its defaults and passes.
  validated_again :
      (c : Config)
      → IsValid sys (filled c)
      → validated sys (filled c) (address_error (filled c)) ≡ (filled c, none)
  validated_again c v =
      let f = filled c in
      let passed =
        (both_none (ssl_error sys f) (pool_error sys f)).1
          ((ssl_iff sys f).1 v.1.0, (pool_iff sys f).1 v.1.1) in
      ap (validated sys f) ((address_iff f).1 v.0)
      ∙ ap (λ x. (x, first_some (ssl_error sys x) (pool_error sys x))) (ssl-filled c)
      ∙ ap (λ o. (f, o)) passed

  again_structured :
      (c : Config)
      → c.uri ≡ ""
      → (validate sys c).1 ≡ none
      → validate sys (validate sys c).0 ≡ ((validate sys c).0, none)
  unfolding apply_pool_defaults
  again_structured c u h =
      let e = structured sys c u in
      let same : (validate sys c).0 ≡ filled c =
        ap (λ x. x.0) e
        ∙ settled (addressed c) (address_error (addressed c)) (sym (ap (λ x. x.1) e) ∙ h) in
      let valid = subst (IsValid sys) same ((validate_structured_iff sys c u).0 h) in
      subst (λ x. validate sys x ≡ (x, none)) (sym same)
        (structured sys (filled c) u
          ∙ ap (λ x. validated sys x (address_error x)) (addressed-filled c)
          ∙ validated_again c valid)

  again_by_uri :
      (c : Config)
      → c.uri ≢ ""
      → (validate sys c).1 ≡ none
      → validate sys (validate sys c).0 ≡ ((validate sys c).0, none)
  unfolding apply_pool_defaults
  again_by_uri c u h =
      let e = by_uri sys c u in
      let d = apply_pool_defaults c in
      subst (λ x. validate sys x ≡ (x, none)) (sym (ap (λ x. x.0) e))
        (by_uri sys d u
          ∙ ap (λ x. (x, scheme_error (sys.url_scheme c.uri))) (defaults_twice c)
          ∙ ap (λ o. (d, o)) (sym (ap (λ x. x.1) e) ∙ h))

  -- A configuration that Validate accepted, with the defaults that it wrote, is accepted again and not
  -- changed.
  pub validate_twice :
      (c : Config)
      → (validate sys c).1 ≡ none
      → validate sys (validate sys c).0 ≡ ((validate sys c).0, none)
  validate_twice c h = elim (Bool-cases (c.uri == "")) [
    | inl e ↦ again_structured c ((eq_iff c.uri "").0 e) h
    | inr e ↦ again_by_uri c (ground (arith, eq_iff c.uri "")) h
  ]
