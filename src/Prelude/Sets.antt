-- ===== src/Prelude/Sets.antt =====
-- A Go map to `struct{}`, as the list of its keys, over a Boolean equality of keys that is sound.
use mathlib.Core.Path.{◌≡◌, refl, ap, sym, ◌∙◌}
use mathlib.Core.Logic.{inl, inr}
use mathlib.Core.Bool.{Bool, true, ◌||◌}
use mathlib.Core.List.{List, [], ◌∷◌, ◌++◌}
use native.Mathlib.Omega.{arith}
use stricklysoft_core.Prelude.Tests.{if◌then◌else◌, Bool-cases}
use stricklysoft_core.Prelude.Lists.{any}

-- `m[k] = struct{}{}`
abbrev pub add_key {ℓ} : {K : Type ℓ} → (K → K → Bool) → K → List K → List K
add_key eq k m = if any (eq k) m then m else k ∷ m

pub any-snoc {ℓ} :
    {A : Type ℓ} (p : A → Bool) (xs : List A) (a : A) → any p (xs ++ a ∷ []) ≡ (p a || any p xs)
any-snoc p [] a = ground arith
any-snoc p (x ∷ xs) a = ground (arith, any-snoc p xs a)

module _ {ℓ} {K : Type ℓ} (eq : K → K → Bool) (sound : (k l : K) → eq k l ≡ true → k ≡ l) where
  -- What holds of a key of the set holds of some key of the set.
  pub any_of_mem :
      (f : K → Bool) (k : K) (m : List K) → any (eq k) m ≡ true → f k ≡ true → any f m ≡ true
  any_of_mem f k [] h t = cc
  any_of_mem f k (x ∷ m) h t = elim (Bool-cases (eq k x)) [
    | inl e ↦ rw (sym (ap f (sound k x e)) ∙ t)
    | inr n ↦ ground (arith, any_of_mem f k m)
  ]

  pub any-add_key : (f : K → Bool) (k : K) (m : List K) → any f (add_key eq k m) ≡ (f k || any f m)
  any-add_key f k m = ground (arith, any_of_mem f k m)

module _ {ℓ} {K : Type ℓ} (eq : K → K → Bool) where
  -- The elements of a list that are not in `seen`.
  abbrev pub minus : List K → List K → List K
  minus seen [] = []
  minus seen (x ∷ xs) = let rest = minus seen xs in if any (eq x) seen then rest else x ∷ rest

  -- The first occurrence of each element of a list, in order.
  abbrev pub nub : List K → List K
  nub [] = []
  nub (x ∷ xs) = x ∷ minus (x ∷ []) (nub xs)

  -- What a loop collects that skips the keys of `seen` and adds to `seen` what it collects.
  abbrev pub fresh : List K → List K → List K
  fresh seen [] = []
  fresh seen (x ∷ xs) =
      let old = fresh seen xs in
      let new = fresh (x ∷ seen) xs in if any (eq x) seen then old else x ∷ new

  minus-minus : (x : K) (seen xs : List K) → minus seen (minus (x ∷ []) xs) ≡ minus (x ∷ seen) xs
  minus-minus x seen [] = refl
  minus-minus x seen (y ∷ xs) = ground (arith, minus-minus x seen xs)

  minus_nil : (xs : List K) → minus [] xs ≡ xs
  minus_nil [] = refl
  minus_nil (x ∷ xs) = ap (λ l. x ∷ l) (minus_nil xs)

module _ {ℓ} {K : Type ℓ} (eq : K → K → Bool) (sound : (k l : K) → eq k l ≡ true → k ≡ l) where
  seen_again :
      (x y : K) (seen : List K) → any (eq x) seen ≡ true → any (eq y) (x ∷ seen) ≡ any (eq y) seen
  seen_again x y seen h = elim (Bool-cases (eq y x)) [
    | inl e ↦ rw e (sym (ap (λ k. any (eq k) seen) (sound y x e) ∙ h))
    | inr n ↦ rw n
  ]

  minus_again :
      (x : K) (seen xs : List K)
      → any (eq x) seen ≡ true
      → minus eq (x ∷ seen) xs ≡ minus eq seen xs
  minus_again x seen [] h = refl
  minus_again x seen (y ∷ xs) h = ground (arith, minus_again x seen xs, seen_again x y seen)

  fresh-minus : (seen xs : List K) → fresh eq seen xs ≡ minus eq seen (nub eq xs)
  fresh-minus seen [] = refl
  fresh-minus seen (x ∷ xs) = elim (Bool-cases (any (eq x) seen)) [
    | inl old ↦ rw old (
        fresh-minus seen xs
        ∙ sym (minus-minus eq x seen (nub eq xs) ∙ minus_again x seen (nub eq xs) old))
    | inr new ↦
        rw new
          (ap (λ l. x ∷ l) (fresh-minus (x ∷ seen) xs ∙ sym (minus-minus eq x seen (nub eq xs))))
  ]

  -- The loop that starts with nothing seen keeps the first occurrences.
  pub fresh-nub : (xs : List K) → fresh eq [] xs ≡ nub eq xs
  fresh-nub xs = fresh-minus [] xs ∙ minus_nil eq (nub eq xs)
