-- ===== src/Prelude/Ints.antt =====
-- Go's signed integers, where the sign matters. A duration is a number of nanoseconds in 64 bits.
use Prim.Native.Nat.{ℕ, zero, suc, ◌-◌, ◌≤◌}
use mathlib.Core.Path.{◌≡◌, refl}
use mathlib.Core.Logic.{◌↔◌}
use native.Mathlib.Omega.{arith}
use mathlib.Core.Bool.{Bool, true, false}
use stricklysoft_core.Prelude.Tests.{leb, ltb, if◌then◌else◌}

-- `negsuc n` is -(n + 1).
pub data ℤ : Type 0 where
  pos negsuc : ℕ → ℤ

abbrev pub is_negative : ℤ → Bool
is_negative (pos n) = false
is_negative (negsuc n) = true

-- The value of a number that is not negative.
abbrev pub magnitude : ℤ → ℕ
magnitude (pos n) = n
magnitude (negsuc n) = 0

abbrev pub is_zero_int : ℤ → Bool
is_zero_int (pos n) = leb n 0
is_zero_int (negsuc n) = false

-- The number with that sign and that magnitude.
abbrev pub signed : Bool → ℕ → ℤ
signed false n = pos n
signed true zero = pos 0
signed true (suc n) = negsuc n

abbrev pub max_duration : ℕ
max_duration = 9223372036854775807

-- The difference of two times, kept within a duration as `Time.Sub` keeps it.
unfoldable pub minus_times : ℕ → ℕ → ℤ
minus_times t u =
    if leb u t
    then pos (if leb (t - u) max_duration then t - u else max_duration)
    else negsuc (if leb (u - t - 1) max_duration then u - t - 1 else max_duration)

-- `a < b`
abbrev pub lt_int : ℤ → ℤ → Bool
lt_int (pos m) (pos n) = ltb m n
lt_int (pos m) (negsuc n) = false
lt_int (negsuc m) (pos n) = true
lt_int (negsuc m) (negsuc n) = ltb n m

infix 50 ◌≤ℤ◌
abbrev pub ◌≤ℤ◌ : ℤ → ℤ → Type 0
pos m ≤ℤ pos n = m ≤ n
pos m ≤ℤ negsuc n = ⊥
negsuc m ≤ℤ pos n = Unit
negsuc m ≤ℤ negsuc n = n ≤ m

pub lt_int-false_iff : (a b : ℤ) → (lt_int a b ≡ false) ↔ (b ≤ℤ a)
lt_int-false_iff (pos m) (pos n) = (λ h. ground arith, λ h. ground arith)
lt_int-false_iff (pos m) (negsuc n) = (λ h. tt, λ h. refl)
lt_int-false_iff (negsuc m) (pos n) = (λ h. absurd (cc), λ h. absurd h)
lt_int-false_iff (negsuc m) (negsuc n) = (λ h. ground arith, λ h. ground arith)
