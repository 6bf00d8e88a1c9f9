-- ===== src/Config.antt =====
-- pkg/config: a configuration struct as `reflect` shows it to the loader, with the tags of its fields.
pub mod Parse
pub mod Fields
pub mod Sources
pub mod Loader
pub mod Numerals
pub mod Layers
pub mod Required
pub mod Failures
pub mod Reports
pub mod Load
pub mod RoundTrip
mod Tests
use stricklysoft_core.Prelude.{
  ℕ, Bool, true, false, not, String, Option, none, some, List, ◌==◌, ℤ, is_zero_int,
}

-- The integer kinds that `setField` knows. The platform's int has 64 bits.
pub data IntKind : Type 0 where
  int int8 int16 int32 int64 : IntKind

-- `field.Type().Bits()`
abbrev pub bit_size : IntKind → ℕ
bit_size int = 64
bit_size int8 = 8
bit_size int16 = 16
bit_size int32 = 32
bit_size int64 = 64

-- A field that is no struct: its kind and its value. A slice of texts is nil or a list. Of a slice of
-- other elements, and of a field of another kind, the name of the kind and whether it is zero.
pub data Leaf : Type 0 where
  text : String → Leaf
  flag : Bool → Leaf
  integer : IntKind → ℤ → Leaf
  duration : ℤ → Leaf
  texts : Option (List String) → Leaf
  slice : String → Bool → Leaf
  other : String → Bool → Leaf

-- The name of a field, whether it can be set, and its tags; a tag that is not there reads as "".
pub record Tags : Type 0 where
  pub name : String
  pub can_set : Bool
  pub env : String
  pub env_default : String
  pub required : String

-- The fields of a struct, in order.
pub data Struct : Type 0 where
  no_fields : Struct
  field : Tags → Leaf → Struct → Struct
  nested : Tags → Struct → Struct → Struct

-- `field.IsZero()`
abbrev pub is_zero : Leaf → Bool
is_zero (text s) = s == ""
is_zero (flag b) = not b
is_zero (integer k n) = is_zero_int n
is_zero (duration d) = is_zero_int d
is_zero (texts none) = true
is_zero (texts (some _)) = false
is_zero (slice element blank) = blank
is_zero (other kind blank) = blank
