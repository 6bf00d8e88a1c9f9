-- ===== src/Config/Tests.antt =====
-- Runs of the loader on a small struct.
use stricklysoft_core.Prelude.{
  true, String, Option, some, none, [], ◌∷◌, Dict, lookup, pos, negsuc, ◌≡◌, ◌↔◌, refl, inr,
  decimal, arith,
}
use stricklysoft_core.Prelude.{contains as has_text}
use stricklysoft_core.Config.Fields.{set_field}
use stricklysoft_core.Config.Numerals.{Denotes, Fits, set_field-integer_iff}
use stricklysoft_core.Config.Layers.{Fieldwise, DefaultRule, EnvRule}
use stricklysoft_core.Config.Layers.Priority.{ConfigRule}
use stricklysoft_core.Config.RoundTrip.{set_field-decimal}
use stricklysoft_core.Config.Required.{IsComplete}
use stricklysoft_core.Config.Reports.{Reported, load-Reported}
use stricklysoft_core.Config.Load.{Accepts, load_iff, load-Configured}
use stricklysoft_core.Config.Layers.File.{FileLayer, NoFile}
use stricklysoft_core.Errors.{GoError, plain}
use stricklysoft_core.Errors.Results.{err}
use stricklysoft_core.Config.{
  Tags, Struct, no_fields, field, nested, text, integer, texts, int, int8,
}
use stricklysoft_core.Config.Sources.{Host, Loader, missing, with_env_prefix, with_file, new_loader}
use stricklysoft_core.Config.Loader.{load, pointer_to}

abbrev environment : Dict String
environment = ("APP_DB_PORT", "5433") ∷ ("APP_HOST", "h") ∷ ("APP_TAGS", "a, b") ∷ []

abbrev host : Host
host = record {
  lookup_env = λ key. lookup key environment;
  read_file = λ path. missing;
  parse_duration = λ s. err (plain "time: invalid duration");
  yaml_unmarshal = λ bytes cfg. (cfg, none);
  json_unmarshal = λ bytes cfg. (cfg, none);
}

abbrev tags : String → String → String → String → Tags
tags name env env_default required = record {
  name = name;
  can_set = true;
  env = env;
  env_default = env_default;
  required = required;
}

abbrev database : String → Struct
database port_default =
    field (tags "Port" "PORT" port_default "true") (integer int (pos 0)) no_fields

abbrev app : Struct
app = field (tags "Host" "HOST" "localhost" "") (text "") (
    nested (tags "Database" "DB" "" "") (database "5432") (
      field (tags "Tags" "TAGS" "" "") (texts none)
        (field (tags "Level" "LEVEL" "7" "") (integer int8 (pos 0)) no_fields)))

abbrev loader : Loader
loader = record { env_prefix = "APP"; file_path = "app.yaml" }

abbrev loaded : Struct
loaded = field (tags "Host" "HOST" "localhost" "") (text "h") (
    nested (tags "Database" "DB" "" "")
      (field (tags "Port" "PORT" "5432" "true") (integer int (pos 5433)) no_fields)
      (field (tags "Tags" "TAGS" "" "") (texts (some ("a" ∷ "b" ∷ [])))
        (field (tags "Level" "LEVEL" "7" "") (integer int8 (pos 7)) no_fields)))

load-app : load loader host none (pointer_to app) ≡ (pointer_to loaded, none)
unfolding load lookup
load-app = refl

built : with_file (with_env_prefix new_loader "app") "app.yaml" ≡ loader
unfolding new_loader with_file with_env_prefix
built = refl

set_field-integer_iff_example :
    (set_field host.parse_duration (integer int8 (pos 0)) "-128"
      ≡ (integer int8 (negsuc 127), none))
    ↔ (Denotes "-128" (negsuc 127) × Fits int8 (negsuc 127))
set_field-integer_iff_example =
    set_field-integer_iff host.parse_duration int8 (pos 0) (negsuc 127) "-128"

-- A Validate method like those of the client configurations, which writes a default.
abbrev with_host : Struct → Struct × Option GoError
with_host (field t v rest) = (field t (text "host") rest, none)
with_host s = (s, none)

abbrev validated : Struct
validated = (with_host loaded).0

load-validated : load loader host (some with_host) (pointer_to app) ≡ (pointer_to validated, none)
unfolding load lookup
load-validated = refl

load_iff_example :
    (load loader host (some with_host) (pointer_to app) ≡ (pointer_to validated, none)) ↔ (
      (d f u : Struct) × Fieldwise (DefaultRule host) "APP" app d
      × FileLayer host "app.yaml" d f
      × Fieldwise (EnvRule host) "APP" f u
      × IsComplete u
      × Accepts (some with_host) u validated)
load_iff_example = load_iff loader host (some with_host) app validated

no_such_file : NoFile host loader.file_path
unfolding has_text
no_such_file = inr (refl, refl)

load-Configured_example :
    (u : Struct) × Fieldwise (ConfigRule host) "APP" app u
    × IsComplete u
    × Accepts (some with_host) u validated
load-Configured_example =
    load-Configured loader host (some with_host) app validated no_such_file load-validated

set_field-decimal_example :
    set_field host.parse_duration (integer int8 (pos 0)) (decimal (negsuc 127))
    ≡ (integer int8 (negsuc 127), none)
set_field-decimal_example =
    set_field-decimal host.parse_duration int8 (pos 0) (negsuc 127) (omega arith)

abbrev never_valid : Struct → Struct × Option GoError
never_valid s = (s, some (plain "no"))

load-Reported_example :
    Reported (some never_valid) (load loader host (some never_valid) (pointer_to app)).1
load-Reported_example = load-Reported loader host (some never_valid) (pointer_to app)
