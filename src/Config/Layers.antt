-- ===== src/Config/Layers.antt =====
-- Where the value of each field comes from: the defaults and the environment, described field by field.
pub mod Leaves
pub mod Structs
pub mod Priority
pub mod File
use stricklysoft_core.Prelude.{String, Option, none, some, Bool, true, false, ◌≡◌, ◌≢◌}
use stricklysoft_core.Config.{Leaf, Tags, Struct, no_fields, field, nested, is_zero}
use stricklysoft_core.Config.Fields.{set_field}
use stricklysoft_core.Config.Sources.{Host, env_key, nested_prefix}

-- Two structs of the same shape and tags whose fields are related one by one. The relation is given
-- the prefix of the names of the environment; a nested struct that cannot be set is the same in both.
pub data Fieldwise (R : String → Tags → Leaf → Leaf → Type 0)
    : String → Struct → Struct → Type 0 where
  done : {prefix : String} → Fieldwise R prefix no_fields no_fields
  leaf :
      {prefix : String} {tags : Tags} {old now : Leaf} {rest rest' : Struct}
      → R prefix tags old now
      → Fieldwise R prefix rest rest'
      → Fieldwise R prefix (field tags old rest) (field tags now rest')
  within :
      {prefix : String} {tags : Tags} {inner inner' rest rest' : Struct}
      → tags.can_set ≡ true
      → Fieldwise R (nested_prefix prefix tags.env) inner inner'
      → Fieldwise R prefix rest rest'
      → Fieldwise R prefix (nested tags inner rest) (nested tags inner' rest')
  sealed :
      {prefix : String} {tags : Tags} {inner rest rest' : Struct}
      → tags.can_set ≡ false
      → Fieldwise R prefix rest rest'
      → Fieldwise R prefix (nested tags inner rest) (nested tags inner rest')

-- How a field gets its default: a field that can be set, is zero and has an envDefault tag is set from
-- the tag; another one keeps its value.
pub data Defaulted (host : Host) (tags : Tags) (old : Leaf) : Leaf → Type 0 where
  from_default :
      {now : Leaf}
      → tags.can_set ≡ true
      → tags.env_default ≢ ""
      → is_zero old ≡ true
      → set_field host.parse_duration old tags.env_default ≡ (now, none)
      → Defaulted host tags old now
  no_setter : tags.can_set ≡ false → Defaulted host tags old old
  no_default : tags.env_default ≡ "" → Defaulted host tags old old
  non_zero : is_zero old ≡ false → Defaulted host tags old old

-- How a field gets its value from the environment: one that can be set, has an env tag, and whose
-- variable is there, is set from the variable; another one keeps its value.
pub data Overridden (host : Host) (prefix : String) (tags : Tags) (old : Leaf) : Leaf → Type 0 where
  from_env :
      {now : Leaf} {value : String}
      → tags.can_set ≡ true
      → tags.env ≢ ""
      → host.lookup_env (env_key prefix tags.env) ≡ some value
      → set_field host.parse_duration old value ≡ (now, none)
      → Overridden host prefix tags old now
  no_setter : tags.can_set ≡ false → Overridden host prefix tags old old
  no_tag : tags.env ≡ "" → Overridden host prefix tags old old
  no_variable :
      host.lookup_env (env_key prefix tags.env) ≡ none → Overridden host prefix tags old old

abbrev pub DefaultRule : Host → String → Tags → Leaf → Leaf → Type 0
DefaultRule host prefix tags old now = Defaulted host tags old now

abbrev pub EnvRule : Host → String → Tags → Leaf → Leaf → Type 0
EnvRule host prefix tags old now = Overridden host prefix tags old now
