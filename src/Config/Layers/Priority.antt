-- ===== src/Config/Layers/Priority.antt =====
-- Without a configuration file: which of the environment, the default and the old value a field holds.
use stricklysoft_core.Prelude.{
  true, false, String, none, some, ◌≡◌, ◌≢◌, ◌⊎◌, inl, inr, subst, arith, ℤ, split,
}
use stricklysoft_core.Errors.Results.{Result, ok, err}
use stricklysoft_core.Config.{
  Leaf, Tags, Struct, is_zero, text, flag, integer, duration, texts, slice, other,
}
use stricklysoft_core.Config.Parse.{parse_bool, parse_int}
use stricklysoft_core.Config.Fields.{stored, set_field, trim_all}
use stricklysoft_core.Config.Sources.{Host, env_key, nested_prefix}
use stricklysoft_core.Config.Layers.{
  Fieldwise, done, leaf, within, sealed, Defaulted, Overridden, from_default, from_env, non_zero,
  EnvRule, DefaultRule,
}

-- No environment variable stands for the field.
abbrev pub NoVariable : Host → String → Tags → Type 0
NoVariable host prefix tags = (tags.env ≡ "") ⊎ (host.lookup_env (env_key prefix tags.env) ≡ none)

-- The environment comes first; then the default, where the field was zero; then the old value.
pub data Configured (host : Host) (prefix : String) (tags : Tags) (old : Leaf) : Leaf → Type 0 where
  by_variable :
      {now : Leaf} {value : String}
      → tags.can_set ≡ true
      → tags.env ≢ ""
      → host.lookup_env (env_key prefix tags.env) ≡ some value
      → set_field host.parse_duration old value ≡ (now, none)
      → Configured host prefix tags old now
  by_default :
      {now : Leaf}
      → tags.can_set ≡ true
      → NoVariable host prefix tags
      → tags.env_default ≢ ""
      → is_zero old ≡ true
      → set_field host.parse_duration old tags.env_default ≡ (now, none)
      → Configured host prefix tags old now
  unsettable : tags.can_set ≡ false → Configured host prefix tags old old
  untouched :
      NoVariable host prefix tags
      → (tags.env_default ≡ "") ⊎ (is_zero old ≡ false)
      → Configured host prefix tags old old

abbrev pub ConfigRule : Host → String → Tags → Leaf → Leaf → Type 0
ConfigRule host prefix tags old now = Configured host prefix tags old now

-- A field that was written takes a text as it did before.
module _ {T : Type 0} (build : T → Leaf) (label : String) (old now : Leaf) where
  stored_kind :
      (mid : Leaf) (r : Result T)
      → stored build old label r ≡ (mid, none)
      → (v : T) × (mid ≡ build v)
  stored_kind mid (ok v) h = (v, ground arith)
  stored_kind mid (err e) h = cc

  stored_any :
      (other_old : Leaf) (r : Result T)
      → stored build other_old label r ≡ (now, none)
      → stored build old label r ≡ (now, none)
  stored_any other_old (ok v) h = h
  stored_any other_old (err e) h = cc

module _ (p : String → Result ℤ) (d value : String) (mid now : Leaf) where
  moved :
      (x : Leaf) → mid ≡ x → set_field p mid value ≡ (now, none) → set_field p x value ≡ (now, none)
  moved x e k = subst (λ x. set_field p x value ≡ (now, none)) e k

  pub set_field_twice :
      (old : Leaf)
      → set_field p old d ≡ (mid, none)
      → set_field p mid value ≡ (now, none)
      → set_field p old value ≡ (now, none)
  unfolding set_field
  set_field_twice (text s) h k = moved (text d) (ground arith) k
  set_field_twice (flag b) h k =
      let (v, e) = stored_kind flag _ (flag b) now mid (parse_bool d) h in
      stored_any flag _ (flag b) now (flag v) (parse_bool value) (moved (flag v) e k)
  set_field_twice (integer i n) h k =
      let (v, e) = stored_kind (integer i) _ (integer i n) now mid (parse_int i d) h in
      stored_any (integer i) _ (integer i n) now (integer i v) (parse_int i value)
        (moved (integer i v) e k)
  set_field_twice (duration n) h k =
      let (v, e) = stored_kind duration _ (duration n) now mid (p d) h in
      stored_any duration _ (duration n) now (duration v) (p value) (moved (duration v) e k)
  set_field_twice (texts ts) h k = moved (texts (some (trim_all (split "," d)))) (ground arith) k
  set_field_twice (slice element blank) h k = cc
  set_field_twice (other kind blank) h k = cc

module _ (host : Host) (prefix : String) (tags : Tags) where
  -- A field that neither the variable nor the setter reaches, behind its default.
  unwritten :
      (old now : Leaf)
      → NoVariable host prefix tags
      → Defaulted host tags old now
      → Configured host prefix tags old now
  unwritten old now v (from_default c t z e) = by_default c v t z e
  unwritten old now v (Defaulted.no_setter c) = unsettable c
  unwritten old now v (Defaulted.no_default t) = untouched v (inl t)
  unwritten old now v (non_zero z) = untouched v (inr z)

  sealed_field :
      (old now : Leaf)
      → tags.can_set ≡ false
      → Defaulted host tags old now
      → Configured host prefix tags old now
  sealed_field old now c (from_default c' t z e) = absurd (cc)
  sealed_field old now c (Defaulted.no_setter _) = unsettable c
  sealed_field old now c (Defaulted.no_default t) = unsettable c
  sealed_field old now c (non_zero z) = unsettable c

  written :
      (old mid now : Leaf) (value : String)
      → Defaulted host tags old mid
      → set_field host.parse_duration mid value ≡ (now, none)
      → set_field host.parse_duration old value ≡ (now, none)
  written old mid now value (from_default c t z e) k =
      set_field_twice host.parse_duration tags.env_default value mid now old e k
  written old mid now value (Defaulted.no_setter c) k = k
  written old mid now value (Defaulted.no_default t) k = k
  written old mid now value (non_zero z) k = k

  composed :
      (old mid now : Leaf)
      → Defaulted host tags old mid
      → Overridden host prefix tags mid now
      → Configured host prefix tags old now
  composed old mid now d (from_env {value} c t l k) =
      by_variable c t l (written old mid now value d k)
  composed old mid now d (Overridden.no_setter c) = sealed_field old now c d
  composed old mid now d (Overridden.no_tag t) = unwritten old now (inl t) d
  composed old mid now d (Overridden.no_variable l) = unwritten old now (inr l) d

-- The two layers, put together for every field.
pub layers_composed :
    (host : Host) (prefix : String) (s d t : Struct)
    → Fieldwise (DefaultRule host) prefix s d
    → Fieldwise (EnvRule host) prefix d t
    → Fieldwise (ConfigRule host) prefix s t
layers_composed host prefix s d t done done = done
layers_composed host prefix s d t (leaf {tags} {old} {now = mid} r rs) (leaf {now} q qs) =
    leaf (composed host prefix tags old mid now r q) (layers_composed host prefix _ _ _ rs qs)
layers_composed host prefix s d t (within {tags} c i rs) (within _ j qs) =
    within c (layers_composed host (nested_prefix prefix tags.env) _ _ _ i j)
      (layers_composed host prefix _ _ _ rs qs)
layers_composed host prefix s d t (within c i rs) (sealed c' qs) = absurd (cc)
layers_composed host prefix s d t (sealed c rs) (within c' j qs) = absurd (cc)
layers_composed host prefix s d t (sealed c rs) (sealed _ qs) =
    sealed c (layers_composed host prefix _ _ _ rs qs)
