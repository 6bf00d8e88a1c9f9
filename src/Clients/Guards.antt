-- ===== src/Clients/Guards.antt =====
-- Chains of `if test {return error }`, read backwards from the nil at their end.
use stricklysoft_core.Prelude.{
  Bool, true, false, not, Option, none, some, ◌≡◌, ◌≢◌, ◌↔◌, refl, arith, String, ◌==◌, eq_iff,
  if◌then◌else◌, ℤ, lt_int, ◌≤ℤ◌, lt_int-false_iff, ◌||◌,
}
use stricklysoft_core.Errors.{GoError}
use stricklysoft_core.Errors.Checks.{first_some}

-- No error from the first test, and none from the rest.
pub guard_iff :
    {P Q : Type 0} (b : Bool) (e : GoError) (rest : Option GoError)
    → (b ≡ false) ↔ P
    → (rest ≡ none) ↔ Q
    → ((if b then some e else rest) ≡ none) ↔ (P × Q)
guard_iff true e rest p q = (λ h. absurd (cc), λ h. absurd (cc (p.1 h.0)))
guard_iff false e rest p q = (λ h. (p.0 refl, q.0 h), λ h. q.1 h.1)

-- The last test of a chain.
pub last_iff :
    {P : Type 0} (b : Bool) (e : GoError)
    → (b ≡ false) ↔ P
    → ((if b then some e else none) ≡ none) ↔ P
last_iff true e p = (λ h. absurd (cc), λ h. absurd (cc (p.1 h)))
last_iff false e p = (λ h. p.0 refl, λ h. refl)

pub empty_iff : (s : String) → ((s == "") ≡ false) ↔ (s ≢ "")
empty_iff s = (λ h. ground (arith, eq_iff s ""), λ h. ground (arith, eq_iff s ""))

pub range_iff : (lo hi n : ℤ) → ((lt_int n lo || lt_int hi n) ≡ false) ↔ ((lo ≤ℤ n) × (n ≤ℤ hi))
range_iff lo hi n =
    let below = lt_int-false_iff n lo in
    let above = lt_int-false_iff hi n in
    (
      λ h. (below.0 (ground arith), above.0 (ground arith)),
      λ h. let low = below.1 h.0 in let high = above.1 h.1 in ground arith,
    )

pub not_iff : (b : Bool) → (not b ≡ false) ↔ (b ≡ true)
not_iff true = (λ h. refl, λ h. refl)
not_iff false = (λ h. absurd (cc), λ h. absurd (cc))

pub both_none {ℓ} :
    {A : Type ℓ} (a b : Option A) → (first_some a b ≡ none) ↔ ((a ≡ none) × (b ≡ none))
both_none none b = (λ h. (refl, h), λ h. h.1)
both_none (some a) b = (λ h. absurd (cc), λ h. absurd (cc (h.0)))
