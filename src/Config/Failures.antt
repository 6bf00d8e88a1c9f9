-- ===== src/Config/Failures.antt =====
-- The codes of the errors that the steps of the loader return.
use stricklysoft_core.Prelude.{
  Bool, true, false, not, ◌&&◌, ◌||◌, String, Option, none, some, ◌≡◌, ◌⊎◌, inl, refl, ◌==◌,
  if◌then◌else◌, to_lower,
}
use stricklysoft_core.Prelude.{contains as has_text}
use stricklysoft_core.Errors.{GoError, plain, named, wrapped, joined, platform, code_of, new, wrap}
use stricklysoft_core.Errors.Codes.{Code, code_internal_configuration, code_validation_required}
use stricklysoft_core.Errors.Checks.{first_some}
use stricklysoft_core.Config.{Leaf, Tags, Struct, no_fields, field, nested, is_zero}
use stricklysoft_core.Config.Fields.{set_field}
use stricklysoft_core.Config.Sources.{
  Host, FileContents, contents, missing, unreadable, failure, reported, then_rest, default_leaf,
  apply_defaults, env_key, nested_prefix, env_value, env_leaf, apply_env, decoded, file_values,
  load_file, file_ext,
}
use stricklysoft_core.Config.Loader.{join_path, validate_required, and_then}

-- No error, or a platform error whose code is such.
abbrev pub CodeIn : (Code → Type 0) → Option GoError → Type 0
CodeIn P none = Unit
CodeIn P (some (plain m)) = ⊥
CodeIn P (some (named n m)) = ⊥
CodeIn P (some (wrapped m e)) = ⊥
CodeIn P (some (joined a b)) = ⊥
CodeIn P (some (platform x)) = P (code_of x)

abbrev pub IsConfiguration : Code → Type 0
IsConfiguration c = c ≡ code_internal_configuration

abbrev pub IsRequired : Code → Type 0
IsRequired c = c ≡ code_validation_required

module _ (P : Code → Type 0) where
  CodeIn-if :
      (b : Bool) (x y : Option GoError) → CodeIn P x → CodeIn P y → CodeIn P (if b then x else y)
  CodeIn-if true x y h k = h
  CodeIn-if false x y h k = k

  pub pair_if :
      {T : Type 0} (b : Bool) (x y : T × Option GoError)
      → CodeIn P x.1
      → CodeIn P y.1
      → CodeIn P (if b then x else y).1
  pair_if true x y h k = h
  pair_if false x y h k = k

  CodeIn-first_some : (x y : Option GoError) → CodeIn P x → CodeIn P y → CodeIn P (first_some x y)
  CodeIn-first_some none y h k = k
  CodeIn-first_some (some e) y h k = h

  CodeIn-then_rest :
      {T : Type 0} (build : T → Struct → Struct) (x : T × Option GoError) (rest : Struct)
      (y : Struct × Option GoError)
      → CodeIn P x.1
      → CodeIn P y.1
      → CodeIn P (then_rest build x rest y).1
  CodeIn-then_rest build (v, none) rest y h k = k
  CodeIn-then_rest build (v, some e) rest y h k = h

-- What holds of the error of a first step, and of that of any second one, holds of that of both.
pub and_then_all :
    (Q : Option GoError → Type 0) (x : Struct × Option GoError)
    (step : Struct → Struct × Option GoError)
    → Q x.1
    → ((s : Struct) → Q (step s).1)
    → Q (and_then x step).1
and_then_all Q (s, none) step h k = k s
and_then_all Q (s, some e) step h k = h

CodeIn-failure :
    (message : String) (o : Option GoError) → CodeIn IsConfiguration (failure message o)
unfolding wrap
CodeIn-failure message none = tt
CodeIn-failure message (some e) = refl

pub CodeIn-widen :
    (P Q : Code → Type 0) (o : Option GoError) → ((c : Code) → P c → Q c) → CodeIn P o → CodeIn Q o
CodeIn-widen P Q none w h = tt
CodeIn-widen P Q (some (plain m)) w h = h
CodeIn-widen P Q (some (named n m)) w h = h
CodeIn-widen P Q (some (wrapped m e)) w h = h
CodeIn-widen P Q (some (joined a b)) w h = h
CodeIn-widen P Q (some (platform x)) w h = w (code_of x) h

module _ (host : Host) where
  pub defaults_code : (s : Struct) → CodeIn IsConfiguration (apply_defaults host s).1
  unfolding apply_defaults
  defaults_code no_fields = tt
  defaults_code (field tags old rest) =
      CodeIn-then_rest IsConfiguration (field tags) (default_leaf host tags old) rest
        (apply_defaults host rest)
        (pair_if IsConfiguration (not tags.can_set || tags.env_default == "" || not (is_zero old))
          (old, none) (reported _ (set_field host.parse_duration old tags.env_default)) tt
          (CodeIn-failure _ (set_field host.parse_duration old tags.env_default).1))
        (defaults_code rest)
  defaults_code (nested tags inner rest) =
      CodeIn-then_rest IsConfiguration (nested tags)
        (if tags.can_set then apply_defaults host inner else (inner, none)) rest
        (apply_defaults host rest)
        (pair_if IsConfiguration tags.can_set (apply_defaults host inner) (inner, none)
          (defaults_code inner) tt)
        (defaults_code rest)

  env_value_code :
      (tags : Tags) (key : String) (old : Leaf) (o : Option String)
      → CodeIn IsConfiguration (env_value host tags key old o).1
  env_value_code tags key old none = tt
  env_value_code tags key old (some value) =
      CodeIn-failure _ (set_field host.parse_duration old value).1

  pub env_code : (prefix : String) (s : Struct) → CodeIn IsConfiguration (apply_env host prefix s).1
  unfolding apply_env
  env_code prefix no_fields = tt
  env_code prefix (field tags old rest) =
      let key = env_key prefix tags.env in
      CodeIn-then_rest IsConfiguration (field tags) (env_leaf host prefix tags old) rest
        (apply_env host prefix rest)
        (pair_if IsConfiguration (not tags.can_set || tags.env == "") (old, none)
          (env_value host tags key old (host.lookup_env key)) tt
          (env_value_code tags key old (host.lookup_env key)))
        (env_code prefix rest)
  env_code prefix (nested tags inner rest) =
      let inside = apply_env host (nested_prefix prefix tags.env) inner in
      CodeIn-then_rest IsConfiguration (nested tags)
        (if tags.can_set then inside else (inner, none)) rest (apply_env host prefix rest)
        (pair_if IsConfiguration tags.can_set inside (inner, none)
          (env_code (nested_prefix prefix tags.env) inner) tt)
        (env_code prefix rest)

  decoded_code :
      (path ext bytes : String) (s : Struct)
      → CodeIn IsConfiguration (decoded host path ext bytes s).1
  unfolding new
  decoded_code path ext bytes s =
      pair_if IsConfiguration (ext == ".yaml" || ext == ".yml")
        (reported _ (host.yaml_unmarshal bytes s)) _
        (CodeIn-failure _ (host.yaml_unmarshal bytes s).1)
        (pair_if IsConfiguration (ext == ".json") (reported _ (host.json_unmarshal bytes s)) _
          (CodeIn-failure _ (host.json_unmarshal bytes s).1) refl)

  values_code :
      (path : String) (c : FileContents) (s : Struct)
      → CodeIn IsConfiguration (file_values host path c s).1
  values_code path missing s = tt
  values_code path (unreadable e) s = CodeIn-failure _ (some e)
  values_code path (contents bytes) s = decoded_code path (to_lower (file_ext path)) bytes s

  pub file_code : (path : String) (s : Struct) → CodeIn IsConfiguration (load_file host path s).1
  unfolding load_file new
  file_code path s =
      pair_if IsConfiguration (has_text ".." path) _ (file_values host path (host.read_file path) s)
        refl (values_code path (host.read_file path) s)

pub IsRequired-code : (path : String) (s : Struct) → CodeIn IsRequired (validate_required path s)
unfolding validate_required new
IsRequired-code path no_fields = tt
IsRequired-code path (field tags v rest) =
    CodeIn-if IsRequired (tags.can_set && tags.required == "true" && is_zero v) _
      (validate_required path rest) refl (IsRequired-code path rest)
IsRequired-code path (nested tags inner rest) =
    let inside = validate_required (join_path path tags.name) inner in
    CodeIn-first_some IsRequired (if tags.can_set then inside else none)
      (validate_required path rest)
      (CodeIn-if IsRequired tags.can_set inside none
        (IsRequired-code (join_path path tags.name) inner) tt)
      (IsRequired-code path rest)

-- A failure of loading, or a required field that is zero.
abbrev pub IsLoading : Code → Type 0
IsLoading c = (c ≡ code_internal_configuration) ⊎ (c ≡ code_validation_required)

abbrev pub loading : (o : Option GoError) → CodeIn IsConfiguration o → CodeIn IsLoading o
loading o = CodeIn-widen IsConfiguration IsLoading o (λ c. inl)
