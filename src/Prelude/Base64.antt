-- ===== src/Prelude/Base64.antt =====
-- `base64.RawURLEncoding.DecodeString`: no padding, line ends are skipped, and the bits that are left
-- over are not looked at.
use Prim.Native.Nat.{ℕ, ◌+◌, ◌-◌, ◌*◌, ◌/◌, ◌%◌}
use Prim.Native.Char.{Char, code}
use Prim.Native.String.{String}
use mathlib.Core.Path.{◌≡◌, refl}
use mathlib.Core.Bool.{◌||◌, ◌&&◌}
use mathlib.Core.Option.{Option, none, some}
use mathlib.Core.List.{List, [], ◌∷◌}
use stricklysoft_core.Prelude.Tests.{if◌then◌else◌, leb}
use stricklysoft_core.Prelude.Texts.{has_code}

-- The six bits that a character stands for.
abbrev pub sextet : Char → Option ℕ
sextet c =
    let n = code c in
    if leb 0x41 n && leb n 0x5A
    then some (n - 0x41)
    else if leb 0x61 n && leb n 0x7A
    then some (n - 0x61 + 26)
    else if leb 0x30 n && leb n 0x39
    then some (n - 0x30 + 52)
    else if has_code 0x2D c
    then some 62
    else if has_code 0x5F c
    then some 63
    else none

abbrev pub put_sextet : Option ℕ → Option (List ℕ) → Option (List ℕ)
put_sextet (some v) (some vs) = some (v ∷ vs)
put_sextet _ _ = none

unfoldable pub sextets : String → Option (List ℕ)
sextets String.[] = some []
sextets (String.◌∷◌ c s) =
    let rest = sextets s in
    if has_code 0x0A c || has_code 0x0D c then rest else put_sextet (sextet c) rest

abbrev pub with_three : ℕ → ℕ → ℕ → ℕ → Option (List ℕ) → Option (List ℕ)
with_three a b c d none = none
with_three a b c d (some bytes) =
    some ((a * 4 + b / 16) ∷ ((b % 16) * 16 + c / 4) ∷ ((c % 4) * 64 + d) ∷ bytes)

-- Four characters are three bytes; two or three characters at the end are one byte or two.
unfoldable pub bytes_of : List ℕ → Option (List ℕ)
bytes_of [] = some []
bytes_of (a ∷ []) = none
bytes_of (a ∷ b ∷ []) = some ((a * 4 + b / 16) ∷ [])
bytes_of (a ∷ b ∷ c ∷ []) = some ((a * 4 + b / 16) ∷ ((b % 16) * 16 + c / 4) ∷ [])
bytes_of (a ∷ b ∷ c ∷ d ∷ rest) = with_three a b c d (bytes_of rest)

abbrev pub decode_all : Option (List ℕ) → Option (List ℕ)
decode_all none = none
decode_all (some vs) = bytes_of vs

unfoldable pub decode_base64 : String → Option (List ℕ)
unfolding sextets bytes_of
decode_base64 s = decode_all (sextets s)

-- The exponent 65537 as it stands in most keys.
usual_exponent : decode_base64 "AQAB" ≡ some (1 ∷ 0 ∷ 1 ∷ [])
unfolding decode_base64
usual_exponent = refl
