-- ===== src/Config/RoundTrip.antt =====
-- An integer that is printed in decimal and read into a field again.
use Prim.Native.Nat.{◌+◌, ◌*◌, ◌/◌, ◌%◌}
use Prim.Native.Char.{code}
use Prim.Native.String.{String}
use stricklysoft_core.Prelude.{
  ℕ, zero, suc, none, ◌≡◌, ◌≢◌, ◌<◌, refl, arith, false, ℤ, pos, negsuc, decimal, digits,
  digit_char, code-digit_char, Bool-cases, ltb, inl, inr, ap, ◌∙◌, sym, signed, true, ◌≤◌,
}
use stricklysoft_core.Errors.Results.{Result}
use stricklysoft_core.Config.{IntKind, integer}
use stricklysoft_core.Config.Parse.{split_sign, push_digit}
use stricklysoft_core.Config.Fields.{set_field}
use stricklysoft_core.Config.Numerals.{AllDigits, numeral, Denotes, Fits, set_field-integer_iff}

-- The character of one digit, and what it appends to a number.
digit_bounds : (d : ℕ) → d < 10 → (0x30 ≤ code (digit_char d)) × (code (digit_char d) ≤ 0x39)
digit_bounds d h = omega (arith, code-digit_char d h)

push-digit_char : (n d : ℕ) → d < 10 → push_digit n (digit_char d) ≡ n * 10 + d
push-digit_char n d h = omega (arith, code-digit_char d h)

AllDigits-digits : (fuel n : ℕ) (rest : String) → AllDigits rest → AllDigits (digits fuel n rest)
unfolding digits
AllDigits-digits zero n rest h = h
AllDigits-digits (suc fuel) n rest h = elim (Bool-cases (ltb n 10)) [
  | inl e ↦ let (low, high) = digit_bounds n (ground arith) in rw e (low, high, h)
  | inr e ↦
      let (low, high) = digit_bounds (n % 10) (omega arith) in
      rw e (AllDigits-digits fuel (n / 10) (String.◌∷◌ (digit_char (n % 10)) rest) (low, high, h))
]

numeral-digits :
    (fuel n : ℕ) (rest : String) → n < fuel → numeral 0 (digits fuel n rest) ≡ numeral n rest
unfolding digits
numeral-digits zero n rest h = absurd (omega arith)
numeral-digits (suc fuel) n rest h = elim (Bool-cases (ltb n 10)) [
  | inl e ↦ rw e (ap (λ m. numeral m rest) (push-digit_char 0 n (ground arith) ∙ omega arith))
  | inr e ↦ rw e (
      numeral-digits fuel (n / 10) (String.◌∷◌ (digit_char (n % 10)) rest) (ground arith)
      ∙ ap (λ m. numeral m rest) (push-digit_char (n / 10) (n % 10) (omega arith) ∙ omega arith))
]

digits-ne-empty : (fuel n : ℕ) (rest : String) → rest ≢ "" → digits fuel n rest ≢ ""
unfolding digits
digits-ne-empty zero n rest h = h
digits-ne-empty (suc fuel) n rest h = elim (Bool-cases (ltb n 10)) [
  | inl e ↦ rw e (cc)
  | inr e ↦ rw e (digits-ne-empty fuel (n / 10) (String.◌∷◌ (digit_char (n % 10)) rest) (cc))
]

first_digit : (n : ℕ) → digits (suc n) n "" ≢ ""
unfolding digits
first_digit n = elim (Bool-cases (ltb n 10)) [
  | inl e ↦ rw e (cc)
  | inr e ↦ rw e (digits-ne-empty n (n / 10) (String.◌∷◌ (digit_char (n % 10)) "") (cc))
]

unsigned : (s : String) → AllDigits s → split_sign s ≡ (false, s)
unsigned String.[] h = refl
unsigned (String.◌∷◌ c s) h = ground arith

Denotes-decimal : (z : ℤ) → Denotes (decimal z) z
unfolding decimal
Denotes-decimal (pos n) =
    let all = AllDigits-digits (suc n) n "" tt in
    rw (unsigned (digits (suc n) n "") all)
      (first_digit n, all, ap pos (sym (numeral-digits (suc n) n "" (omega arith))))
Denotes-decimal (negsuc n) = (
  first_digit (suc n),
  AllDigits-digits (suc (suc n)) (suc n) "" tt,
  ap (signed true) (sym (numeral-digits (suc (suc n)) (suc n) "" (omega arith))),
)

-- An integer that fits the size of a field is stored by setField from its decimal text as printed by
-- `%d`.
pub set_field-decimal :
    (parse_duration : String → Result ℤ) (k : IntKind) (old z : ℤ)
    → Fits k z
    → set_field parse_duration (integer k old) (decimal z) ≡ (integer k z, none)
set_field-decimal parse_duration k old z f =
    (set_field-integer_iff parse_duration k old z (decimal z)).1 (Denotes-decimal z, f)
