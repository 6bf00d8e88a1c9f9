-- ===== src/Clients/System.antt =====
-- What the validation of the client configurations uses: the operating system and `net/url` as a record
-- of functions, and the defaults of zero values.
use stricklysoft_core.Prelude.{
  String, Option, none, some, has_prefix, ◌==◌, if◌then◌else◌, ℤ, is_zero_int,
}
use stricklysoft_core.Errors.{GoError}
use stricklysoft_core.Errors.Results.{Result}

-- `url.Parse`, of which the scheme is used; the error of `os.Stat`; and `%v` of a duration.
pub record System : Type 0 where
  pub url_scheme : String → Result String
  pub stat_error : String → Option GoError
  pub duration_text : ℤ → String

-- `if n == 0 { n = default }`
abbrev pub or_default : ℤ → ℤ → ℤ
or_default default n = if is_zero_int n then default else n

abbrev pub or_text : String → String → String
or_text default s = if s == "" then default else s

-- `strings.TrimPrefix(path, "/")`
abbrev pub trim_slash : String → String
trim_slash String.[] = String.[]
trim_slash (String.◌∷◌ c s) = if has_prefix "/" (String.◌∷◌ c s) then s else String.◌∷◌ c s

-- The name of the database that the path of a URL gives.
abbrev pub path_or : String → Option String → String
path_or name none = name
path_or name (some path) = trim_slash path
