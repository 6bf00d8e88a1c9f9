-- ===== src/Prelude/Texts.antt =====
-- What the program uses of Go's `strings` and of `%q`, on native texts. The separators are ASCII
-- characters, so to cut between characters is to cut between bytes.
use Prim.Native.Nat.{ℕ, zero, suc, compare, Ordering}
use Prim.Native.Char.{Char, code}
use Prim.Native.String.{String, ◌++◌}
use mathlib.Core.Path.{◌≡◌, refl}
use mathlib.Core.Bool.{Bool, true, false, ◌||◌, ◌&&◌}
use mathlib.Core.Option.{Option, none, some}
use mathlib.Core.List.{List, [], ◌∷◌}
use stricklysoft_core.Prelude.Tests.{if◌then◌else◌, leb}

abbrev pub has_code : ℕ → Char → Bool
has_code n c = elim (compare (code c) n) [ Ordering.eq ↦ true | _ ↦ false ]

abbrev pub is_char : Char → Char → Bool
is_char d c = has_code (code d) c

-- The text in front of the first `sep`, and what follows it, if there is one.
unfoldable pub cut : Char → String → String × Option String
cut sep String.[] = ("", none)
cut sep (String.◌∷◌ c s) =
    let (w, rest) = cut sep s in if is_char sep c then ("", some s) else (String.◌∷◌ c w, rest)

-- `strings.SplitN` with a separator of one character: at most that many parts, and the last one
-- takes the separators that are left.
unfoldable pub split_n : Char → ℕ → String → List String
split_n sep zero s = []
split_n sep (suc zero) s = s ∷ []
split_n sep (suc (suc k)) s =
    let (w, rest) = cut sep s in elim rest [ none ↦ w ∷ [] | some r ↦ w ∷ split_n sep (suc k) r ]

-- `unicode.IsSpace`
abbrev pub is_space : Char → Bool
is_space c =
    let n = code c in
    (leb 9 n && leb n 13)
    || has_code 0x20 c
    || has_code 0x85 c
    || has_code 0xA0 c
    || has_code 0x1680 c
    || (leb 0x2000 n && leb n 0x200A)
    || has_code 0x2028 c
    || has_code 0x2029 c
    || has_code 0x202F c
    || has_code 0x205F c
    || has_code 0x3000 c

abbrev pub flush : String → List String → List String
flush String.[] ws = ws
flush (String.◌∷◌ c w) ws = String.◌∷◌ c w ∷ ws

-- The word that the text begins with, which may be empty, and the words behind it.
unfoldable pub words : String → String × List String
words String.[] = ("", [])
words (String.◌∷◌ c s) =
    let (w, ws) = words s in if is_space c then ("", flush w ws) else (String.◌∷◌ c w, ws)

-- `strings.Fields`
unfoldable pub fields : String → List String
unfolding words
fields s = let (w, ws) = words s in flush w ws

-- `%q` of a text of printable characters.
unfoldable pub escape : String → String
escape String.[] = String.[]
escape (String.◌∷◌ c s) =
    let rest = String.◌∷◌ c (escape s) in
    if has_code 0x22 c || has_code 0x5C c then "\\" ++ rest else rest

unfoldable pub quote : String → String
unfolding escape
quote s = "\"" ++ escape s ++ "\""

fields_three : fields " a:b  c:d:e\tf" ≡ "a:b" ∷ "c:d:e" ∷ "f" ∷ []
unfolding fields
fields_three = refl

split_three : split_n ":" 3 "a:b:c:d" ≡ "a" ∷ "b" ∷ "c:d" ∷ []
unfolding split_n cut
split_three = refl
