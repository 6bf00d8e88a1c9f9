-- ===== src/Config/Loader.antt =====
-- pkg/config: the validation of validation.go, and `Load` and `MustLoad` of loader.go.
use Prim.Native.String.{◌++◌}
use stricklysoft_core.Prelude.{
  ◌&&◌, String, Option, none, some, ◌==◌, if◌then◌else◌, quote, is_some,
}
use stricklysoft_core.Errors.{GoError, platform, new, wrap, error_text}
use stricklysoft_core.Errors.Codes.{
  code_internal_configuration, code_validation, code_validation_required,
}
use stricklysoft_core.Errors.Checks.{as_error, first_some}
use stricklysoft_core.Config.{Struct, no_fields, field, nested, is_zero}
use stricklysoft_core.Config.Sources.{Host, Loader, as_value, apply_defaults, apply_env, load_file}

abbrev pub join_path : String → String → String
join_path path name = if path == "" then name else path ++ "." ++ name

unfoldable pub validate_required : String → Struct → Option GoError
validate_required path no_fields = none
validate_required path (field tags leaf rest) =
    if tags.can_set && tags.required == "true" && is_zero leaf
    then some (
        platform (
          new code_validation_required
            ("config: required field " ++ quote (join_path path tags.name) ++ " is empty")))
    else validate_required path rest
validate_required path (nested tags inner rest) =
    first_some (if tags.can_set then validate_required (join_path path tags.name) inner else none)
      (validate_required path rest)

-- The error of a custom Validate: a platform error as it is, another one wrapped.
abbrev pub validation_error : Option GoError → Option GoError
validation_error none = none
validation_error (some e) =
    if is_some (as_error (some e))
    then some e
    else as_value (wrap (some e) code_validation "config: custom validation failed")

-- The Validate method of a struct that implements Validator; it may write into the struct.
abbrev pub Custom : Type 0
Custom = Option (Struct → Struct × Option GoError)

abbrev pub custom_checked : Custom → Struct → Struct × Option GoError
custom_checked none cfg = (cfg, none)
custom_checked (some check) cfg = let (cfg', e) = check cfg in (cfg', validation_error e)

abbrev pub and_then :
    Struct × Option GoError → (Struct → Struct × Option GoError) → Struct × Option GoError
and_then (cfg, some e) step = (cfg, some e)
and_then (cfg, none) step = step cfg

unfoldable pub validate : Custom → Struct → Struct × Option GoError
unfolding validate_required as_error
validate custom cfg = and_then (cfg, validate_required "" cfg) (custom_checked custom)

-- What is passed to Load: a nil pointer or no pointer, a pointer to something else, or to a struct.
pub data Target : Type 0 where
  no_pointer not_struct : Target
  pointer_to : Struct → Target

unfoldable pub populate : Loader → Host → Custom → Struct → Struct × Option GoError
unfolding apply_defaults load_file apply_env validate
populate l host custom cfg =
    and_then
      (and_then
        (and_then (apply_defaults host cfg)
          (λ d. if l.file_path == "" then (d, none) else load_file host l.file_path d))
        (apply_env host l.env_prefix))
      (validate custom)

unfoldable pub load : Loader → Host → Custom → Target → Target × Option GoError
unfolding populate
load l host custom no_pointer = (
  no_pointer,
  some (
      platform
        (new code_internal_configuration "config: Load requires a non-nil pointer to a struct")),
)
load l host custom not_struct = (
  not_struct,
  some (platform (new code_internal_configuration "config: Load requires a pointer to a struct")),
)
load l host custom (pointer_to cfg) =
    let (cfg', e) = populate l host custom cfg in (pointer_to cfg', e)

-- The value that `MustLoad` returns, or the text that it panics with.
pub data Loaded : Type 0 where
  returned : Target → Loaded
  panicked : String → Loaded

abbrev pub must : Target × Option GoError → Loaded
must (cfg, none) = returned cfg
must (cfg, some e) = panicked ("config: MustLoad failed: " ++ error_text e)

-- The zero value of the type is an argument.
unfoldable pub must_load : Loader → Host → Custom → Target → Loaded
unfolding load
must_load l host custom initial = must (load l host custom initial)
