-- ===== src/Clients/Truncate.antt =====
-- The length of a statement that was cut for a trace.
use Prim.Native.Nat.{◌+◌}
use Prim.Native.String.{String, ◌++◌}
use Prim.Native.String.append
use stricklysoft_core.Prelude.{
  ℕ, zero, suc, ◌≡◌, ◌≤◌, ◌⊎◌, inl, inr, refl, arith, leb, Bool-cases, ◌<◌,
}
use stricklysoft_core.Clients.Text.{count_runes, take_runes, truncate}

count-append : (s t : String) → count_runes (s ++ t) ≡ count_runes s + count_runes t
count-append String.[] t = rw (append.nil t) (omega arith)
count-append (String.◌∷◌ c s) t = rw (append.cons c s t) (omega (arith, count-append s t))

count-take : (n : ℕ) (s : String) → n ≤ count_runes s → count_runes (take_runes n s) ≡ n
count-take zero s h = refl
count-take (suc n) String.[] h = absurd (omega arith)
count-take (suc n) (String.◌∷◌ c s) h = omega (arith, count-take n s (omega arith))

-- A statement of at most 100 runes is traced as it is; a longer one as its first 100 runes and three
-- dots, which makes 103 runes.
pub truncate_lem :
    (s : String)
    → ((count_runes s ≤ 100) × (truncate s ≡ s))
      ⊎ ((100 < count_runes s)
          × (truncate s ≡ take_runes 100 s ++ "...")
          × (count_runes (truncate s) ≡ 103))
unfolding truncate
truncate_lem s = elim (Bool-cases (leb (count_runes s) 100)) [
  | inl e ↦ inl (ground arith, ground arith)
  | inr e ↦ inr (
    ground arith,
    ground arith,
    rw e (omega (arith, count-append (take_runes 100 s) "...", count-take 100 s (ground arith))),
  )
]
