-- ===== src/Config/Sources.antt =====
-- pkg/config/loader.go: the loader, and the three layers from which it fills a struct.
use Prim.Native.String.{◌++◌}
use stricklysoft_core.Prelude.{contains as has_text}
use stricklysoft_core.Prelude.{
  not, ◌||◌, String, Option, none, some, ◌==◌, if◌then◌else◌, ℤ, quote, is_char, to_upper, to_lower,
}
use stricklysoft_core.Errors.{GoError, Error, platform, new, wrap}
use stricklysoft_core.Errors.Codes.{code_internal_configuration}
use stricklysoft_core.Errors.Results.{Result}
use stricklysoft_core.Config.{Leaf, Tags, Struct, no_fields, field, nested, is_zero}
use stricklysoft_core.Config.Fields.{set_field}

-- What `os.ReadFile` gives; `missing` is an error for which `os.IsNotExist` holds.
pub data FileContents : Type 0 where
  contents : String → FileContents
  missing : FileContents
  unreadable : GoError → FileContents

-- The operating system, `time.ParseDuration`, and the decoders of YAML and of JSON, which write into
-- the struct and may fail half-way.
pub record Host : Type 0 where
  pub lookup_env : String → Option String
  pub read_file : String → FileContents
  pub parse_duration : String → Result ℤ
  pub yaml_unmarshal : String → Struct → Struct × Option GoError
  pub json_unmarshal : String → Struct → Struct × Option GoError

pub record Loader : Type 0 where
  pub env_prefix : String
  pub file_path : String

-- `New`
unfoldable pub new_loader : Loader
new_loader = record { env_prefix = ""; file_path = "" }

unfoldable pub with_env_prefix : Loader → String → Loader
unfolding to_upper
with_env_prefix l prefix = record l { env_prefix = to_upper prefix }

unfoldable pub with_file : Loader → String → Loader
with_file l path = record l { file_path = path }

-- A `*sserr.Error` as an `error`
abbrev pub as_value : Option Error → Option GoError
as_value none = none
as_value (some e) = some (platform e)

-- `if err != nil {return sserr.Wrapf(err, sserr.CodeInternalConfiguration, message) }`
abbrev pub failure : String → Option GoError → Option GoError
failure message none = none
failure message (some e) = as_value (wrap (some e) code_internal_configuration message)

abbrev pub reported : {T : Type 0} → String → T × Option GoError → T × Option GoError
reported message (value, e) = (value, failure message e)

-- The loop over the fields: the first one, and the others unless it failed.
abbrev pub then_rest :
    {T : Type 0}
    → (T → Struct → Struct)
    → T × Option GoError
    → Struct
    → Struct × Option GoError
    → Struct × Option GoError
then_rest build (value, some e) rest done = (build value rest, some e)
then_rest build (value, none) rest (rest', e) = (build value rest', e)

abbrev pub default_leaf : Host → Tags → Leaf → Leaf × Option GoError
default_leaf host tags leaf =
    if not tags.can_set || tags.env_default == "" || not (is_zero leaf)
    then (leaf, none)
    else reported ("config: failed to apply default for field " ++ quote tags.name)
        (set_field host.parse_duration leaf tags.env_default)

unfoldable pub apply_defaults : Host → Struct → Struct × Option GoError
unfolding set_field
apply_defaults host no_fields = (no_fields, none)
apply_defaults host (field tags leaf rest) =
    then_rest (field tags) (default_leaf host tags leaf) rest (apply_defaults host rest)
apply_defaults host (nested tags inner rest) =
    then_rest (nested tags) (if tags.can_set then apply_defaults host inner else (inner, none)) rest
      (apply_defaults host rest)

abbrev pub env_key : String → String → String
env_key prefix tag = if prefix == "" then tag else prefix ++ "_" ++ tag

abbrev pub nested_prefix : String → String → String
nested_prefix prefix tag = if tag == "" then prefix else env_key prefix tag

abbrev pub env_value : Host → Tags → String → Leaf → Option String → Leaf × Option GoError
env_value host tags key leaf none = (leaf, none)
env_value host tags key leaf (some value) =
    reported ("config: failed to set field " ++ quote tags.name ++ " from env var " ++ quote key)
      (set_field host.parse_duration leaf value)

abbrev pub env_leaf : Host → String → Tags → Leaf → Leaf × Option GoError
env_leaf host prefix tags leaf =
    if not tags.can_set || tags.env == ""
    then (leaf, none)
    else let key = env_key prefix tags.env in env_value host tags key leaf (host.lookup_env key)

unfoldable pub apply_env : Host → String → Struct → Struct × Option GoError
unfolding set_field
apply_env host prefix no_fields = (no_fields, none)
apply_env host prefix (field tags leaf rest) =
    then_rest (field tags) (env_leaf host prefix tags leaf) rest (apply_env host prefix rest)
apply_env host prefix (nested tags inner rest) =
    then_rest (nested tags)
      (if tags.can_set then apply_env host (nested_prefix prefix tags.env) inner else (inner, none))
      rest (apply_env host prefix rest)

abbrev pub ext_after : String → String → String
ext_after found String.[] = found
ext_after found (String.◌∷◌ c s) =
    ext_after (if is_char "/" c then String.[] else if is_char "." c then String.◌∷◌ c s else found)
      s

-- `filepath.Ext`: from the last dot of the last element of the path.
unfoldable pub file_ext : String → String
file_ext path = ext_after "" path

abbrev pub decoded : Host → String → String → String → Struct → Struct × Option GoError
decoded host path ext bytes cfg =
    if ext == ".yaml" || ext == ".yml"
    then reported ("config: failed to parse YAML file " ++ quote path)
        (host.yaml_unmarshal bytes cfg)
    else if ext == ".json"
    then reported ("config: failed to parse JSON file " ++ quote path)
        (host.json_unmarshal bytes cfg)
    else (
      cfg,
      some (
          platform (
            new code_internal_configuration (
              "config: unsupported file extension "
              ++ quote ext
              ++ " (use .yaml, .yml, or .json)"))),
    )

abbrev pub file_values : Host → String → FileContents → Struct → Struct × Option GoError
file_values host path missing cfg = (cfg, none)
file_values host path (unreadable e) cfg =
    (cfg, failure ("config: failed to read file " ++ quote path) (some e))
file_values host path (contents bytes) cfg = decoded host path (to_lower (file_ext path)) bytes cfg

unfoldable pub load_file : Host → String → Struct → Struct × Option GoError
unfolding has_text file_ext to_lower
load_file host path cfg =
    if has_text ".." path
    then (
      cfg,
      some (
          platform (
            new code_internal_configuration
              "config: file path must not contain directory traversal (..) sequences")),
    )
    else file_values host path (host.read_file path) cfg
