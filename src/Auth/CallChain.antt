-- ===== src/Auth/CallChain.antt =====
-- pkg/auth/identity.go: `CallChain` and `AppendCaller`.
use stricklysoft_core.Prelude.{
  ℕ, zero, suc, ◌+◌, ◌-◌, ◌≤◌, ◌≡◌, refl, sym, ap, ◌∙◌, String, List, [], ◌∷◌, ◌++◌, arith, ltb,
  length, drop, length-append, length-drop, if◌then◌else◌, Bool-cases, inl, inr,
}
use mathlib.Core.List.{append_assoc, append-nil}
use native.Mathlib.Nat.{suc-add}
use stricklysoft_core.Auth.Identity.{IdentityType}

pub record CallerInfo : Type 0 where
  pub service_name : String
  pub identity_id : String
  pub identity_type : IdentityType

pub record CallChain : Type 0 where
  pub original_id : String
  pub original_type : IdentityType
  pub callers : List CallerInfo

abbrev pub max_call_chain_depth : ℕ
max_call_chain_depth = 32

-- `Depth`
unfoldable pub depth : CallChain → ℕ
depth c = length c.callers

-- `callers[len(callers)-n:]` where the slice is longer than `n`.
unfoldable pub last_callers : ℕ → List CallerInfo → List CallerInfo
last_callers n callers =
    if ltb n (length callers) then drop (length callers - n) callers else callers

-- `AppendCaller`; the receiver is left as it was
unfoldable pub append_caller : CallChain → CallerInfo → CallChain
unfolding last_callers
append_caller c caller = record c {
  callers = last_callers max_call_chain_depth (c.callers ++ caller ∷ []);
}

-- One call after another, as a request passes through services.
unfoldable pub append_callers : CallChain → List CallerInfo → CallChain
unfolding append_caller
append_callers c [] = c
append_callers c (caller ∷ callers) = append_callers (append_caller c caller) callers

drop-append :
    (k : ℕ) (xs ys : List CallerInfo) → k ≤ length xs → drop k xs ++ ys ≡ drop k (xs ++ ys)
drop-append zero xs ys h = refl
drop-append (suc k) [] ys h = absurd (omega arith)
drop-append (suc k) (x ∷ xs) ys h = drop-append k xs ys (omega arith)

drop_nil : (n : ℕ) → drop {A = CallerInfo} n [] ≡ []
drop_nil zero = refl
drop_nil (suc n) = refl

drop-drop : (i k : ℕ) (xs : List CallerInfo) → drop i (drop k xs) ≡ drop (k + i) xs
drop-drop i zero xs = ap (λ n. drop n xs) (omega arith)
drop-drop i (suc k) [] = drop_nil i ∙ sym (drop_nil (suc k + i))
drop-drop i (suc k) (x ∷ xs) = rw (suc-add) (drop-drop i k xs)

-- The slice is longer than `n` or not: in both cases the last `n` callers are left.
pub last_callers-drop : (n : ℕ) (xs : List CallerInfo) → last_callers n xs ≡ drop (length xs - n) xs
unfolding last_callers
last_callers-drop n xs = elim (Bool-cases (ltb n (length xs))) [
  | inl more ↦ rw more
  | inr fit ↦ rw fit (ap (λ k. drop k xs) (let e : 0 ≡ length xs - n = ground arith in e))
]

last_callers-append :
    (n : ℕ) (xs ys : List CallerInfo)
    → last_callers n (last_callers n xs ++ ys) ≡ last_callers n (xs ++ ys)
last_callers-append n xs ys = rw (last_callers-drop n xs) (
    rw (drop-append (length xs - n) xs ys (omega arith)) (
      last_callers-drop n (drop (length xs - n) (xs ++ ys))
      ∙ drop-drop _ (length xs - n) (xs ++ ys)
      ∙ ap (λ k. drop k (xs ++ ys))
          (omega (arith, length-drop (length xs - n) (xs ++ ys), length-append xs ys))
      ∙ sym (last_callers-drop n (xs ++ ys))))

last_callers_idem : (n : ℕ) (xs : List CallerInfo) → length xs ≤ n → last_callers n xs ≡ xs
unfolding last_callers
last_callers_idem n xs h = ground arith

pub length-last_callers : (n : ℕ) (xs : List CallerInfo) → length (last_callers n xs) ≤ n
length-last_callers n xs =
    rw (last_callers-drop n xs) (omega (arith, length-drop (length xs - n) xs))

-- However many services a request passes through, a chain of at most 32 callers becomes the last 32
-- of its callers and the new ones, in order; it is never deeper than 32, and the original identity
-- and its type stay.
pub append_callers_lem :
    (c : CallChain) (callers : List CallerInfo)
    → length c.callers ≤ 32
    → ((append_callers c callers).callers
        ≡ drop (length (c.callers ++ callers) - 32) (c.callers ++ callers))
      × (length (append_callers c callers).callers ≤ 32)
      × ((append_callers c callers).original_id ≡ c.original_id)
      × ((append_callers c callers).original_type ≡ c.original_type)
unfolding append_callers
append_callers_lem c [] h = (
  sym (
      sym (last_callers-drop 32 (c.callers ++ []))
      ∙ last_callers_idem 32 (c.callers ++ []) (rw (append-nil c.callers) h)
      ∙ append-nil c.callers),
  h,
  refl,
  refl,
)
append_callers_lem c (caller ∷ callers) h =
    let ih =
      append_callers_lem (append_caller c caller) callers
        (length-last_callers 32 (c.callers ++ caller ∷ [])) in
    let before = last_callers 32 (c.callers ++ caller ∷ []) ++ callers in
    (
      ih.0
          ∙ sym (last_callers-drop 32 before)
          ∙ last_callers-append 32 (c.callers ++ caller ∷ []) callers
          ∙ ap (last_callers 32) (append_assoc c.callers (caller ∷ []) callers)
          ∙ last_callers-drop 32 (c.callers ++ caller ∷ callers),
      ih.1,
      ih.2,
      ih.3,
    )
