-- ===== src/Config/Numerals.antt =====
-- Which texts `setField` takes for an integer field, and what it stores.
use Prim.Native.Nat.{◌-◌, ◌^◌}
use Prim.Native.Char.{code}
use Prim.Native.String.{String, ◌++◌}
use stricklysoft_core.Prelude.{
  ℕ, zero, suc, Bool, true, false, none, ◌≡◌, ◌≢◌, ◌↔◌, ◌≤◌, ◌<◌, refl, sym, subst, ap, quote, ◌∙◌,
  arith, eq_iff, ℤ, pos, negsuc, signed,
}
use stricklysoft_core.Errors.Results.{Result, ok, err}
use stricklysoft_core.Config.{IntKind, int, int8, int16, int32, int64, bit_size, integer}
use stricklysoft_core.Config.Parse.{
  Scanned, scanned, bad_syntax, out_of_range, push_digit, scan_digits, parse_uint, split_sign,
  cutoff, max_uint, with_sign, parse_int,
}
use stricklysoft_core.Config.Fields.{stored, set_field}

-- Every character is a decimal digit.
abbrev pub AllDigits : String → Type 0
AllDigits String.[] = Unit
AllDigits (String.◌∷◌ c s) = (0x30 ≤ code c) × (code c ≤ 0x39) × AllDigits s

-- The number that digits spell behind `n`, with no bound.
abbrev pub numeral : ℕ → String → ℕ
numeral n String.[] = n
numeral n (String.◌∷◌ c s) = numeral (push_digit n c) s

-- The text is a decimal numeral for the integer: a sign or none, and digits.
abbrev pub Denotes : String → ℤ → Type 0
Denotes s z =
    let (negative, digits) = split_sign s in
    (digits ≢ "") × AllDigits digits × (z ≡ signed negative (numeral 0 digits))

-- The integer lies between -2^(n-1) and 2^(n-1) - 1, for the size n of the kind.
abbrev pub Fits : IntKind → ℤ → Type 0
Fits k (pos n) = n < 2 ^ (bit_size k - 1)
Fits k (negsuc n) = n < 2 ^ (bit_size k - 1)

le-numeral : (n : ℕ) (s : String) → n ≤ numeral n s
le-numeral n String.[] = omega arith
le-numeral n (String.◌∷◌ c s) = omega (arith, le-numeral (push_digit n c) s)

scan_sound :
    (max n : ℕ) (s : String) (r : ℕ)
    → scan_digits max n s ≡ scanned r
    → AllDigits s × (r ≡ numeral n s)
unfolding scan_digits
scan_sound max n String.[] r h = ground arith
scan_sound max n (String.◌∷◌ c s) r h = ground (arith, scan_sound max (push_digit n c) s r)

scan_complete :
    (max n : ℕ) (s : String)
    → AllDigits s
    → numeral n s ≤ max
    → scan_digits max n s ≡ scanned (numeral n s)
unfolding scan_digits
scan_complete max n String.[] d h = refl
scan_complete max n (String.◌∷◌ c s) d h =
    ground (arith, scan_complete max (push_digit n c) s d.2 h, le-numeral (push_digit n c) s)

cutoff_max : (k : IntKind) → cutoff k ≤ max_uint k
cutoff_max int = omega arith
cutoff_max int8 = omega arith
cutoff_max int16 = omega arith
cutoff_max int32 = omega arith
cutoff_max int64 = omega arith

uint_sound :
    (max : ℕ) (s : String) (r : ℕ)
    → parse_uint max s ≡ scanned r
    → (s ≢ "") × AllDigits s × (r ≡ numeral 0 s)
unfolding parse_uint
uint_sound max s r h = ground (arith, eq_iff s "", scan_sound max 0 s r)

uint_complete :
    (max : ℕ) (s : String)
    → s ≢ ""
    → AllDigits s
    → numeral 0 s ≤ max
    → parse_uint max s ≡ scanned (numeral 0 s)
unfolding parse_uint
uint_complete max s h d b = ground (arith, eq_iff s "", scan_complete max 0 s d b)

cutoff_pos : (k : IntKind) → 0 < cutoff k
cutoff_pos int = omega arith
cutoff_pos int8 = omega arith
cutoff_pos int16 = omega arith
cutoff_pos int32 = omega arith
cutoff_pos int64 = omega arith

-- What the sign makes of the digits.
sign_sound :
    (k : IntKind) (s : String) (negative : Bool) (o : Scanned) (z : ℤ)
    → with_sign k s negative o ≡ ok z
    → (r : ℕ) × (o ≡ scanned r) × (z ≡ signed negative r) × Fits k z
sign_sound k s negative bad_syntax z h = cc
sign_sound k s negative out_of_range z h = cc
sign_sound k s false (scanned r) z h =
    let e : z ≡ pos r = ground arith in (r, refl, e, subst (Fits k) (sym e) (ground arith))
sign_sound k s true (scanned zero) z h =
    let e : z ≡ pos 0 = ground arith in (0, refl, e, subst (Fits k) (sym e) (cutoff_pos k))
sign_sound k s true (scanned (suc r)) z h =
    let e : z ≡ negsuc r = ground arith in (suc r, refl, e, subst (Fits k) (sym e) (ground arith))

sign_complete :
    (k : IntKind) (s : String) (negative : Bool) (r : ℕ)
    → Fits k (signed negative r)
    → (r ≤ max_uint k) × (with_sign k s negative (scanned r) ≡ ok (signed negative r))
sign_complete k s false r f = (omega (arith, cutoff_max k), ground arith)
sign_complete k s true zero f = (omega (arith, cutoff_max k), ground (arith, cutoff_pos k))
sign_complete k s true (suc r) f = (omega (arith, cutoff_max k), ground arith)

int_sound : (k : IntKind) (s : String) (z : ℤ) → parse_int k s ≡ ok z → Denotes s z × Fits k z
unfolding parse_int
int_sound k s z h =
    let (negative, digits) = split_sign s in
    let (r, read, e, f) = sign_sound k s negative (parse_uint (max_uint k) digits) z h in
    let (given, all, value) = uint_sound (max_uint k) digits r read in
    ((given, all, e ∙ ap (signed negative) value), f)

int_complete : (k : IntKind) (s : String) (z : ℤ) → Denotes s z → Fits k z → parse_int k s ≡ ok z
unfolding parse_int
int_complete k s z (given, all, e) f =
    let (negative, digits) = split_sign s in
    let (bound, done) = sign_complete k s negative (numeral 0 digits) (subst (Fits k) e f) in
    ap (with_sign k s negative) (uint_complete (max_uint k) digits given all bound)
    ∙ done
    ∙ ap ok (sym e)

stored_ok :
    (k : IntKind) (old z : ℤ) (label : String) (r : Result ℤ)
    → (stored (integer k) (integer k old) label r ≡ (integer k z, none)) ↔ (r ≡ ok z)
stored_ok k old z label (ok n) = (λ h. ground arith, λ h. ground arith)
stored_ok k old z label (err e) = (λ h. ground arith, λ h. ground arith)

-- setField stores an integer into a field of an integer kind, without an error, exactly when the text
-- is a decimal numeral for it, with a sign or none, and it fits the size of the kind.
pub set_field-integer_iff :
    (parse_duration : String → Result ℤ) (k : IntKind) (old z : ℤ) (s : String)
    → (set_field parse_duration (integer k old) s ≡ (integer k z, none)) ↔ (Denotes s z × Fits k z)
unfolding set_field
set_field-integer_iff parse_duration k old z s =
    let read = stored_ok k old z ("cannot parse integer " ++ quote s) (parse_int k s) in
    (λ h. int_sound k s z (read.0 h), λ d. read.1 (int_complete k s z d.0 d.1))
