-- ===== src/Clients/Text.antt =====
-- What the client packages do with texts: secrets that print as a placeholder, and statements that are
-- cut for a trace. Each package has these functions with the same body; they stand for those of
-- pkg/clients/postgres/config.go. A text is valid UTF-8, so its runes are its characters.
use Prim.Native.String.{◌++◌}
use stricklysoft_core.Prelude.{ℕ, zero, suc, String, Option, none, leb, if◌then◌else◌}
use stricklysoft_core.Errors.{GoError}

-- `type Secret string`
abbrev pub Secret : Type 0
Secret = String

abbrev pub redacted : String
redacted = "[REDACTED]"

-- `String`
unfoldable pub secret_string : Secret → String
secret_string s = redacted

-- `GoString`
unfoldable pub go_string : Secret → String
go_string s = redacted

-- `Value`
abbrev pub value : Secret → String
value s = s

unfoldable pub marshal_text : Secret → String × Option GoError
marshal_text s = (redacted, none)

abbrev pub count_runes : String → ℕ
count_runes String.[] = 0
count_runes (String.◌∷◌ c s) = suc (count_runes s)

-- `string(runes[:n])`
abbrev pub take_runes : ℕ → String → String
take_runes zero s = String.[]
take_runes (suc n) String.[] = String.[]
take_runes (suc n) (String.◌∷◌ c s) = String.◌∷◌ c (take_runes n s)

abbrev pub max_truncate_len : ℕ
max_truncate_len = 100

unfoldable pub truncate : String → String
truncate s =
    if leb (count_runes s) max_truncate_len then s else take_runes max_truncate_len s ++ "..."
