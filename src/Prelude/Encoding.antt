-- ===== src/Prelude/Encoding.antt =====
-- `base64.RawURLEncoding.EncodeToString`, and its laws with `decode_base64`.
use Prim.Native.Nat.{ℕ, zero, suc, ◌+◌, ◌*◌, ◌/◌, ◌%◌, ◌<◌}
use Prim.Native.Char.{Char}
use Prim.Native.String.{String}
use mathlib.Core.Path.{◌≡◌, refl, ap, subst}
use mathlib.Core.Logic.{inl, inr}
use mathlib.Core.Bool.{Bool, true, false, not, ◌||◌, ◌&&◌}
use mathlib.Core.Option.{Option, none, some}
use mathlib.Core.List.{List, [], ◌∷◌}
use native.Mathlib.Omega.{arith}
use stricklysoft_core.Prelude.Tests.{leb, ltb, Bool-cases}
use stricklysoft_core.Prelude.Lists.{All}
use stricklysoft_core.Prelude.Texts.{has_code}
use stricklysoft_core.Prelude.Base64.{sextet, sextets, bytes_of, decode_base64}

abbrev char_at : String → ℕ → Char
char_at String.[] n = "A"
char_at (String.◌∷◌ c s) zero = c
char_at (String.◌∷◌ c s) (suc n) = char_at s n

abbrev symbol : ℕ → Char
symbol n = char_at "ABCDEFGHIJKLMNOPQRSTUVWXYZabcdefghijklmnopqrstuvwxyz0123456789-_" n

-- Three bytes are four sextets; one byte or two at the end are two or three.
unfoldable pub sextets_of : List ℕ → List ℕ
sextets_of [] = []
sextets_of (a ∷ []) = (a / 4) ∷ ((a % 4) * 16) ∷ []
sextets_of (a ∷ b ∷ []) = (a / 4) ∷ ((a % 4) * 16 + b / 16) ∷ ((b % 16) * 4) ∷ []
sextets_of (a ∷ b ∷ c ∷ rest) =
    (a / 4) ∷ ((a % 4) * 16 + b / 16) ∷ ((b % 16) * 4 + c / 64) ∷ (c % 64) ∷ sextets_of rest

unfoldable pub symbols : List ℕ → String
symbols [] = ""
symbols (v ∷ vs) = String.◌∷◌ (symbol v) (symbols vs)

unfoldable pub encode_base64 : List ℕ → String
unfolding sextets_of symbols
encode_base64 bytes = symbols (sextets_of bytes)

abbrev pub IsByte : ℕ → Type 0
IsByte b = b < 256

abbrev IsSextet : ℕ → Type 0
IsSextet v = v < 64

sextets-bounded : (bytes : List ℕ) → All IsByte bytes → All IsSextet (sextets_of bytes)
unfolding sextets_of
sextets-bounded [] h = tt
sextets-bounded (a ∷ []) h = (omega (arith, h.0), (omega (arith, h.0), tt))
sextets-bounded (a ∷ b ∷ []) h =
    (omega (arith, h.0), (omega (arith, h.0, h.1.0), (omega (arith, h.1.0), tt)))
sextets-bounded (a ∷ b ∷ c ∷ rest) h = (
  omega (arith, h.0),
  (
    omega (arith, h.0, h.1.0),
    (omega (arith, h.1.0, h.1.1.0), (omega arith, sextets-bounded rest h.1.1.1)),
  ),
)

first_byte : (a b : ℕ) → b < 256 → a / 4 * 4 + (a % 4 * 16 + b / 16) / 16 ≡ a
first_byte a b h = omega (arith, h)

second_byte :
    (a b c : ℕ)
    → b < 256
    → c < 256
    → (a % 4 * 16 + b / 16) % 16 * 16 + (b % 16 * 4 + c / 64) / 4 ≡ b
second_byte a b c h k = omega (arith, h, k)

third_byte : (b c : ℕ) → c < 256 → (b % 16 * 4 + c / 64) % 4 * 64 + c % 64 ≡ c
third_byte b c k = omega (arith, k)

bytes_of-sextets_of : (bytes : List ℕ) → All IsByte bytes → bytes_of (sextets_of bytes) ≡ some bytes
unfolding sextets_of bytes_of
bytes_of-sextets_of [] h = refl
bytes_of-sextets_of (a ∷ []) h = ap (λ x. some (x ∷ [])) (omega arith)
bytes_of-sextets_of (a ∷ b ∷ []) h =
    rw (first_byte a b h.1.0) (ap (λ x. some (a ∷ x ∷ [])) (omega (arith, h.1.0)))
bytes_of-sextets_of (a ∷ b ∷ c ∷ rest) h = rw (
  bytes_of-sextets_of rest h.1.1.1,
  first_byte a b h.1.0,
  second_byte a b c h.1.0 h.1.1.0,
  third_byte b c h.1.1.0,
)

-- What decoding does with a symbol, tried for all 64.
abbrev is_read : ℕ → Bool
is_read v =
    elim (sextet (symbol v)) [ none ↦ false | some u ↦ leb u v && leb v u ]
    && not (has_code 0x0A (symbol v) || has_code 0x0D (symbol v))

abbrev all_below : ℕ → (ℕ → Bool) → Bool
all_below zero p = true
all_below (suc n) p = p n && all_below n p

all_read : all_below 64 is_read ≡ true
all_read = refl

below : (n v : ℕ) (p : ℕ → Bool) → all_below n p ≡ true → v < n → p v ≡ true
below zero v p h l = absurd (omega (arith, l))
below (suc n) v p h l =
    let both = conjuncts (p n) (all_below n p) h in
    elim (Bool-cases (ltb v n)) [
      | inl e ↦ below n v p both.1 (ground (arith, e))
      | inr e ↦ subst (λ u. p u ≡ true) (omega_last n v l e) both.0
    ]
  where
    conjuncts : (a b : Bool) → (a && b) ≡ true → (a ≡ true) × (b ≡ true)
    conjuncts a b h = ground (arith, h)

    omega_last : (n v : ℕ) → v < suc n → ltb v n ≡ false → n ≡ v
    omega_last n v l e = ground (arith, l, e)

symbol-read :
    (v : ℕ)
    → v < 64
    → (sextet (symbol v) ≡ some v)
      × ((has_code 0x0A (symbol v) || has_code 0x0D (symbol v)) ≡ false)
symbol-read v l =
    reading v (sextet (symbol v)) (has_code 0x0A (symbol v) || has_code 0x0D (symbol v))
      (below 64 v is_read all_read l)
  where
    reading :
        (v : ℕ) (o : Option ℕ) (b : Bool)
        → (elim o [ none ↦ false | some u ↦ leb u v && leb v u ] && not b) ≡ true
        → (o ≡ some v) × (b ≡ false)
    reading v none b h = absurd (ground (arith, h))
    reading v (some u) b h = (ap some (ground (arith, h)), ground (arith, h))

sextets-symbols : (vs : List ℕ) → All IsSextet vs → sextets (symbols vs) ≡ some vs
unfolding sextets symbols
sextets-symbols [] h = refl
sextets-symbols (v ∷ vs) h =
    let (value, plain) = symbol-read v h.0 in rw (plain, value, sextets-symbols vs h.1)

-- Decoding takes back what encoding made of a list of bytes.
pub decode-encode_base64 :
    (bytes : List ℕ) → All IsByte bytes → decode_base64 (encode_base64 bytes) ≡ some bytes
unfolding decode_base64 encode_base64
decode-encode_base64 bytes h =
    rw (sextets-symbols (sextets_of bytes) (sextets-bounded bytes h)) (bytes_of-sextets_of bytes h)
