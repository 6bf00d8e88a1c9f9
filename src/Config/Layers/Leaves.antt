-- ===== src/Config/Layers/Leaves.antt =====
-- The step of the loader at one field against its description.
use stricklysoft_core.Prelude.{
  true, String, Option, none, some, ◌≡◌, ◌≢◌, refl, sym, subst, ap, ◌∙◌, arith, eq_iff, Bool-cases,
  ◌==◌, inl, inr, quote,
}
use Prim.Native.String.{◌++◌}
use stricklysoft_core.Errors.{GoError, wrap}
use stricklysoft_core.Config.{Leaf, Tags, is_zero}
use stricklysoft_core.Config.Fields.{set_field}
use stricklysoft_core.Config.Sources.{Host, reported, default_leaf, env_key, env_value, env_leaf}
use stricklysoft_core.Config.Layers.{Defaulted, Overridden, from_env, from_default, non_zero}

reported_ok :
    {T : Type 0} (message : String) (x : T × Option GoError)
    → (reported message x).1 ≡ none
    → (x.1 ≡ none) × ((reported message x).0 ≡ x.0)
unfolding wrap
reported_ok message (v, none) h = (refl, refl)
reported_ok message (v, some e) h = cc

succeeded : {T : Type 0} (x : T × Option GoError) → x.1 ≡ none → x ≡ (x.0, none)
succeeded (v, e) h = ap (λ o. (v, o)) h

module _ (host : Host) where
  env_value_sound :
      (prefix : String) (tags : Tags) (old : Leaf) (o : Option String)
      → tags.can_set ≡ true
      → tags.env ≢ ""
      → host.lookup_env (env_key prefix tags.env) ≡ o
      → (env_value host tags (env_key prefix tags.env) old o).1 ≡ none
      → Overridden host prefix tags old (env_value host tags (env_key prefix tags.env) old o).0
  env_value_sound prefix tags old none c t l h = Overridden.no_variable l
  env_value_sound prefix tags old (some value) c t l h =
      let (fine, same) = reported_ok _ (set_field host.parse_duration old value) h in
      subst (Overridden host prefix tags old) (sym same)
        (from_env c t l (succeeded (set_field host.parse_duration old value) fine))

  pub env_sound :
      (prefix : String) (tags : Tags) (old : Leaf)
      → (env_leaf host prefix tags old).1 ≡ none
      → Overridden host prefix tags old (env_leaf host prefix tags old).0
  env_sound prefix tags old h = elim (Bool-cases tags.can_set) [
    | inr c ↦ unchanged (ground arith) (Overridden.no_setter c)
    | inl c ↦ elim (Bool-cases (tags.env == "")) [
      | inl t ↦ unchanged (ground arith) (Overridden.no_tag ((eq_iff tags.env "").0 t))
      | inr t ↦
          let e : env_leaf host prefix tags old ≡ looked_up = ground arith in
          subst (λ x. Overridden host prefix tags old x.0) (sym e)
            (env_value_sound prefix tags old (host.lookup_env (env_key prefix tags.env)) c
              (ground (arith, eq_iff tags.env "")) refl (sym (ap (λ x. x.1) e) ∙ h))
    ]
  ]
    where
      unchanged :
          env_leaf host prefix tags old ≡ (old, none)
          → Overridden host prefix tags old old
          → Overridden host prefix tags old (env_leaf host prefix tags old).0
      unchanged e o = subst (λ x. Overridden host prefix tags old x.0) (sym e) o

      looked_up : Leaf × Option GoError
      looked_up =
          env_value host tags (env_key prefix tags.env) old
            (host.lookup_env (env_key prefix tags.env))

  pub default_sound :
      (tags : Tags) (old : Leaf)
      → (default_leaf host tags old).1 ≡ none
      → Defaulted host tags old (default_leaf host tags old).0
  default_sound tags old h = elim (Bool-cases tags.can_set) [
    | inr c ↦ unchanged (ground arith) (Defaulted.no_setter c)
    | inl c ↦ elim (Bool-cases (tags.env_default == "")) [
      | inl t ↦ unchanged (ground arith) (Defaulted.no_default ((eq_iff tags.env_default "").0 t))
      | inr t ↦ elim (Bool-cases (is_zero old)) [
        | inr z ↦ unchanged (ground arith) (non_zero z)
        | inl z ↦
            let e : default_leaf host tags old ≡ written = ground arith in
            let (fine, same) = reported_ok message result (sym (ap (λ x. x.1) e) ∙ h) in
            subst (Defaulted host tags old) (sym (ap (λ x. x.0) e ∙ same)) (
              from_default c (ground (arith, eq_iff tags.env_default "")) z (succeeded result fine))
      ]
    ]
  ]
    where
      unchanged :
          default_leaf host tags old ≡ (old, none)
          → Defaulted host tags old old
          → Defaulted host tags old (default_leaf host tags old).0
      unchanged e o = subst (λ x. Defaulted host tags old x.0) (sym e) o

      result : Leaf × Option GoError
      result = set_field host.parse_duration old tags.env_default

      message : String
      message = "config: failed to apply default for field " ++ quote tags.name

      written : Leaf × Option GoError
      written = reported message result

  pub default_complete :
      (tags : Tags) (old now : Leaf)
      → Defaulted host tags old now
      → default_leaf host tags old ≡ (now, none)
  default_complete tags old now (from_default c t z e) = ground (arith, eq_iff tags.env_default "")
  default_complete tags old now (Defaulted.no_setter c) = ground arith
  default_complete tags old now (Defaulted.no_default t) =
      ground (arith, eq_iff tags.env_default "")
  default_complete tags old now (non_zero z) = ground arith

  pub env_complete :
      (prefix : String) (tags : Tags) (old now : Leaf)
      → Overridden host prefix tags old now
      → env_leaf host prefix tags old ≡ (now, none)
  env_complete prefix tags old now (from_env c t l e) = ground (arith, eq_iff tags.env "")
  env_complete prefix tags old now (Overridden.no_setter c) = ground arith
  env_complete prefix tags old now (Overridden.no_tag t) = ground (arith, eq_iff tags.env "")
  env_complete prefix tags old now (Overridden.no_variable l) = ground (arith, eq_iff tags.env "")
