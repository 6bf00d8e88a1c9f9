-- ===== src/Config/Fields.antt =====
-- pkg/config/loader.go: `setField`, which writes a text into a field by the kind of the field.
use Prim.Native.String.{◌++◌}
use stricklysoft_core.Prelude.{
  String, Option, none, some, List, [], ◌∷◌, ℤ, quote, split, trim_space,
}
use stricklysoft_core.Errors.{GoError, plain, wrapped}
use stricklysoft_core.Errors.Results.{Result, ok, err}
use stricklysoft_core.Config.{Leaf, text, flag, integer, duration, texts, slice, other}
use stricklysoft_core.Config.Parse.{parse_bool, parse_int}

abbrev pub trim_all : List String → List String
trim_all [] = []
trim_all (part ∷ parts) = trim_space part ∷ trim_all parts

-- The field with the value that was read, or as it was, and an error with that text in front.
abbrev pub stored : {T : Type 0} → (T → Leaf) → Leaf → String → Result T → Leaf × Option GoError
stored build old label (ok value) = (build value, none)
stored build old label (err e) = (old, some (wrapped label e))

-- `time.ParseDuration` is the first argument.
unfoldable pub set_field : (String → Result ℤ) → Leaf → String → Leaf × Option GoError
unfolding parse_bool parse_int split trim_space
set_field parse_duration (duration d) value =
    stored duration (duration d) ("cannot parse duration " ++ quote value) (parse_duration value)
set_field parse_duration (text s) value = (text value, none)
set_field parse_duration (flag b) value =
    stored flag (flag b) ("cannot parse bool " ++ quote value) (parse_bool value)
set_field parse_duration (integer k n) value =
    stored (integer k) (integer k n) ("cannot parse integer " ++ quote value) (parse_int k value)
set_field parse_duration (texts ts) value = (texts (some (trim_all (split "," value))), none)
set_field parse_duration (slice element blank) value =
    (slice element blank, some (plain ("unsupported slice element type " ++ element)))
set_field parse_duration (other kind blank) value =
    (other kind blank, some (plain ("unsupported field type " ++ kind)))
