-- ===== src/Config/Parse.antt =====
-- What pkg/config uses of `strconv`: ParseBool, and ParseInt in base 10, with its errors.
use Prim.Native.Nat.{◌+◌, ◌-◌, ◌*◌, ◌^◌}
use Prim.Native.Char.{Char, code}
use Prim.Native.String.{◌++◌}
use stricklysoft_core.Prelude.{
  ℕ, Bool, true, false, not, ◌||◌, ◌&&◌, String, ◌==◌, ltb, leb, if◌then◌else◌, is_char, quote, ℤ,
  signed, negsuc, ◌≡◌, refl,
}
use stricklysoft_core.Errors.{GoError, named, wrapped}
use stricklysoft_core.Errors.Results.{Result, ok, err}
use stricklysoft_core.Config.{IntKind, int8, bit_size}

abbrev pub err_syntax : GoError
err_syntax = named "strconv.ErrSyntax" "invalid syntax"

abbrev pub err_range : GoError
err_range = named "strconv.ErrRange" "value out of range"

-- `NumError{Func, Num, Err}`, which unwraps to Err
abbrev pub num_error : String → String → GoError → GoError
num_error function num e = wrapped ("strconv." ++ function ++ ": parsing " ++ quote num) e

unfoldable pub parse_bool : String → Result Bool
parse_bool s =
    if s == "1" || s == "t" || s == "T" || s == "TRUE" || s == "true" || s == "True"
    then ok true
    else if s == "0" || s == "f" || s == "F" || s == "FALSE" || s == "false" || s == "False"
    then ok false
    else err (num_error "ParseBool" s err_syntax)

pub data Scanned : Type 0 where
  scanned : ℕ → Scanned
  bad_syntax out_of_range : Scanned

abbrev pub is_digit : Char → Bool
is_digit c = leb 0x30 (code c) && leb (code c) 0x39

-- The number that a digit appends to `n`.
abbrev pub push_digit : ℕ → Char → ℕ
push_digit n c = n * 10 + (code c - 0x30)

-- The loop of ParseUint behind the digits of `n`; it stops at the first digit that leads out of range.
unfoldable pub scan_digits : ℕ → ℕ → String → Scanned
scan_digits max n String.[] = scanned n
scan_digits max n (String.◌∷◌ c s) =
    let rest = scan_digits max (push_digit n c) s in
    if not (is_digit c) then bad_syntax else if ltb max (push_digit n c) then out_of_range else rest

unfoldable pub parse_uint : ℕ → String → Scanned
unfolding scan_digits
parse_uint max s = if s == "" then bad_syntax else scan_digits max 0 s

-- Whether there is a minus sign, and the text behind the sign.
abbrev pub split_sign : String → Bool × String
split_sign String.[] = (false, String.[])
split_sign (String.◌∷◌ c s) =
    if is_char "+" c
    then (false, s)
    else if is_char "-" c
    then (true, s)
    else (false, String.◌∷◌ c s)

-- 2^(n-1) and 2^n - 1 at the size n of the kind
abbrev pub cutoff : IntKind → ℕ
cutoff k = 2 ^ (bit_size k - 1)

abbrev pub max_uint : IntKind → ℕ
max_uint k = 2 ^ bit_size k - 1

abbrev pub with_sign : IntKind → String → Bool → Scanned → Result ℤ
with_sign k s negative bad_syntax = err (num_error "ParseInt" s err_syntax)
with_sign k s negative out_of_range = err (num_error "ParseInt" s err_range)
with_sign k s false (scanned n) =
    if leb (cutoff k) n then err (num_error "ParseInt" s err_range) else ok (signed false n)
with_sign k s true (scanned n) =
    if ltb (cutoff k) n then err (num_error "ParseInt" s err_range) else ok (signed true n)

-- `strconv.ParseInt(s, 10, bitSize)`
unfoldable pub parse_int : IntKind → String → Result ℤ
unfolding parse_uint
parse_int k s =
    let (negative, digits) = split_sign s in with_sign k s negative (parse_uint (max_uint k) digits)

lowest : parse_int int8 "-128" ≡ ok (negsuc 127)
unfolding parse_int
lowest = refl

too_high : parse_int int8 "128" ≡ err (num_error "ParseInt" "128" err_range)
unfolding parse_int
too_high = refl

no_digits : parse_int int8 "-" ≡ err (num_error "ParseInt" "-" err_syntax)
unfolding parse_int
no_digits = refl
