-- ===== src/Prelude/Cuts.antt =====
-- `strings.Split`, and laws of `cut` and `split`.
use Prim.Native.Char.{Char, code}
use Prim.Native.String.{String, ◌++◌}
use Prim.Native.String.append
use Prim.Native.Nat.{ℕ}
use mathlib.Core.Path.{◌≡◌, refl, sym, ap, ◌∙◌}
use mathlib.Core.Logic.{inl, inr}
use mathlib.Core.Bool.{true, false}
use mathlib.Core.List.{List, [], ◌∷◌}
use mathlib.Core.Option.{Option, none, some}
use native.Mathlib.Omega.{arith}
use text.Mathlib.TextEquality.{Char-path}
use stricklysoft_core.Prelude.Tests.{Bool-cases, if◌then◌else◌}
use stricklysoft_core.Prelude.Texts.{is_char, has_code, cut}

-- `sep` does not stand in the text.
abbrev pub Lacks : Char → String → Type 0
Lacks sep String.[] = Unit
Lacks sep (String.◌∷◌ c s) = (is_char sep c ≡ false) × Lacks sep s

has_code_iff : (n : ℕ) (c : Char) → has_code n c ≡ true → code c ≡ n
has_code_iff n c h = ground arith

is_char-eq : (sep c : Char) → is_char sep c ≡ true → c ≡ sep
is_char-eq sep c h = Char-path c sep (has_code_iff (code sep) c h)

is_char_self : (sep : Char) → is_char sep sep ≡ true
is_char_self sep = ground arith

pub cut-Lacks : (sep : Char) (w : String) → Lacks sep w → cut sep w ≡ (w, none)
unfolding cut
cut-Lacks sep String.[] h = refl
cut-Lacks sep (String.◌∷◌ c w) h = rw (h.0, cut-Lacks sep w h.1)

pub cut-append :
    (sep : Char) (w s : String) → Lacks sep w → cut sep (w ++ String.◌∷◌ sep s) ≡ (w, some s)
unfolding cut
cut-append sep String.[] s h = rw (append.nil (String.◌∷◌ sep s), is_char_self sep)
cut-append sep (String.◌∷◌ c w) s h =
    rw (append.cons c w (String.◌∷◌ sep s), h.0, cut-append sep w s h.1)

-- What `cut` took apart, put together.
abbrev pub joined : Char → String → Option String → String
joined sep w none = w
joined sep w (some r) = w ++ String.◌∷◌ sep r

pub cut-joined : (sep : Char) (s : String) → joined sep (cut sep s).0 (cut sep s).1 ≡ s
unfolding cut
cut-joined sep String.[] = refl
cut-joined sep (String.◌∷◌ c s) = elim (Bool-cases (is_char sep c)) [
  | inl e ↦
      rw e
        (rw (append.nil (String.◌∷◌ sep s)) (ap (λ d. String.◌∷◌ d s) (sym (is_char-eq sep c e))))
  | inr e ↦
      rw e (joined-cons sep c (cut sep s).0 (cut sep s).1 ∙ ap (String.◌∷◌ c) (cut-joined sep s))
]
  where
    joined-cons :
        (sep c : Char) (w : String) (o : Option String)
        → joined sep (String.◌∷◌ c w) o ≡ String.◌∷◌ c (joined sep w o)
    joined-cons sep c w none = refl
    joined-cons sep c w (some r) = append.cons c w (String.◌∷◌ sep r)

pub colon-append : (s : String) → ":" ++ s ≡ String.◌∷◌ ":" s
colon-append s = append.cons ":" "" s ∙ ap (String.◌∷◌ ":") (append.nil s)

abbrev prepend : Char → List String → List String
prepend c [] = String.◌∷◌ c "" ∷ []
prepend c (w ∷ ws) = String.◌∷◌ c w ∷ ws

-- `strings.Split` with a separator of one character.
unfoldable pub split : Char → String → List String
split sep String.[] = "" ∷ []
split sep (String.◌∷◌ c s) =
    let parts = split sep s in if is_char sep c then "" ∷ parts else prepend c parts

pub split-append :
    (sep : Char) (w s : String) → Lacks sep w → split sep (w ++ String.◌∷◌ sep s) ≡ w ∷ split sep s
unfolding split
split-append sep String.[] s h = rw (append.nil (String.◌∷◌ sep s), is_char_self sep)
split-append sep (String.◌∷◌ c w) s h =
    rw (append.cons c w (String.◌∷◌ sep s), h.0, split-append sep w s h.1)

pub split-Lacks : (sep : Char) (w : String) → Lacks sep w → split sep w ≡ w ∷ []
unfolding split
split-Lacks sep String.[] h = refl
split-Lacks sep (String.◌∷◌ c w) h = rw (h.0, split-Lacks sep w h.1)
