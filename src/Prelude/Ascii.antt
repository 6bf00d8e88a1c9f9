-- ===== src/Prelude/Ascii.antt =====
-- More of Go's `strings`: tests against texts of ASCII letters.
use Prim.Native.Nat.{ℕ, ◌+◌, ◌-◌}
use Prim.Native.Char.{Char, code}
use Prim.Native.String.{String}
use mathlib.Core.Path.{◌≡◌, refl}
use mathlib.Core.Bool.{Bool, true, false, ◌||◌, ◌&&◌}
use text.Mathlib.Text.{◌==◌}
use stricklysoft_core.Prelude.Tests.{if◌then◌else◌, leb}
use stricklysoft_core.Prelude.Texts.{is_char, is_space}

abbrev pub same_code : ℕ → ℕ → Bool
same_code m n = leb m n && leb n m

abbrev pub lower_code : ℕ → ℕ
lower_code n = if leb 0x41 n && leb n 0x5A then n + 32 else n

-- The upper case of a letter, as far as it is ASCII: besides the ASCII letters, the long s and the
-- dotless i have one.
abbrev pub upper_code : ℕ → ℕ
upper_code n =
    if leb 0x61 n && leb n 0x7A
    then n - 32
    else if same_code n 0x17F
    then 0x53
    else if same_code n 0x131
    then 0x49
    else n

-- `strings.EqualFold` where one text is of ASCII letters other than k and s, which alone have
-- partners that are not ASCII.
unfoldable pub equal_fold : String → String → Bool
equal_fold String.[] String.[] = true
equal_fold (String.◌∷◌ c s) (String.◌∷◌ d t) =
    same_code (lower_code (code c)) (lower_code (code d)) && equal_fold s t
equal_fold _ _ = false

-- `strings.HasPrefix(strings.ToUpper(s), p)` with p of upper case ASCII letters.
unfoldable pub has_upper_prefix : String → String → Bool
has_upper_prefix String.[] s = true
has_upper_prefix (String.◌∷◌ d p) String.[] = false
has_upper_prefix (String.◌∷◌ d p) (String.◌∷◌ c s) =
    same_code (code d) (upper_code (code c)) && has_upper_prefix p s

-- `strings.HasPrefix(s, p)`
unfoldable pub has_prefix : String → String → Bool
has_prefix String.[] s = true
has_prefix (String.◌∷◌ d p) String.[] = false
has_prefix (String.◌∷◌ d p) (String.◌∷◌ c s) = is_char d c && has_prefix p s

-- `strings.Contains(s, p)`
unfoldable pub contains : String → String → Bool
unfolding has_prefix
contains p String.[] = has_prefix p String.[]
contains p (String.◌∷◌ c s) = has_prefix p (String.◌∷◌ c s) || contains p s

-- `strings.TrimRight(s, c)` with a cut set of one character.
unfoldable pub trim_right : Char → String → String
trim_right d String.[] = String.[]
trim_right d (String.◌∷◌ c s) =
    let rest = trim_right d s in if is_char d c && rest == "" then "" else String.◌∷◌ c rest

-- The bytes of a character in UTF-8.
abbrev pub byte_count : Char → ℕ
byte_count c =
    let n = code c in
    if leb n 0x7F then 1 else if leb n 0x7FF then 2 else if leb n 0xFFFF then 3 else 4

-- `len(s)`
unfoldable pub byte_length : String → ℕ
byte_length String.[] = 0
byte_length (String.◌∷◌ c s) = byte_count c + byte_length s

trimmed : trim_right "/" "https://a/b//" ≡ "https://a/b"
unfolding trim_right
trimmed = refl

folded : equal_fold "NoNe" "none" ≡ true
unfolding equal_fold
folded = refl

found : contains "no match" "auth: no matching" ≡ true
unfolding contains
found = refl

-- The character that stands in `to` where the given one stands in `from`.
abbrev pub translate : String → String → Char → Char
translate String.[] to c = c
translate from String.[] c = c
translate (String.◌∷◌ a from) (String.◌∷◌ b to) c = if is_char a c then b else translate from to c

abbrev pub map_chars : (Char → Char) → String → String
map_chars f String.[] = String.[]
map_chars f (String.◌∷◌ c s) = String.◌∷◌ (f c) (map_chars f s)

-- `strings.ToUpper` of a text of ASCII characters.
unfoldable pub to_upper : String → String
to_upper = map_chars (translate "abcdefghijklmnopqrstuvwxyz" "ABCDEFGHIJKLMNOPQRSTUVWXYZ")

-- `strings.ToLower` of a text of ASCII characters.
unfoldable pub to_lower : String → String
to_lower = map_chars (translate "ABCDEFGHIJKLMNOPQRSTUVWXYZ" "abcdefghijklmnopqrstuvwxyz")

unfoldable pub trim_space_left : String → String
trim_space_left String.[] = String.[]
trim_space_left (String.◌∷◌ c s) =
    let rest = trim_space_left s in if is_space c then rest else String.◌∷◌ c s

unfoldable pub trim_space_right : String → String
trim_space_right String.[] = String.[]
trim_space_right (String.◌∷◌ c s) =
    let rest = trim_space_right s in
    if is_space c && rest == "" then String.[] else String.◌∷◌ c rest

-- `strings.TrimSpace`
unfoldable pub trim_space : String → String
unfolding trim_space_left trim_space_right
trim_space s = trim_space_right (trim_space_left s)

trimmed_both : trim_space "  a b\t\n" ≡ "a b"
unfolding trim_space
trimmed_both = refl

uppered : to_upper "app_x1" ≡ "APP_X1"
unfolding to_upper
uppered = refl
