-- ===== src/Prelude/Maps.antt =====
-- A Go map with string keys as an association list. The order of the list is an order in which
-- `range` may yield the entries.
use Prim.Native.Nat.{◌+◌, ◌≤◌}
use Prim.Native.String.{String}
use mathlib.Core.Path.{◌≡◌, refl, ◌∙◌}
use mathlib.Core.Option.{Option, none, some}
use mathlib.Core.List.{List, [], ◌∷◌}
use native.Mathlib.Omega.{arith}
use text.Mathlib.Text.{◌==◌}
use text.Mathlib.TextEquality.{eq_iff}
use stricklysoft_core.Prelude.Tests.{if◌then◌else◌}
use stricklysoft_core.Prelude.Lists.{length}

abbrev pub Dict {ℓ} : Type ℓ → Type ℓ
Dict V = List (String × V)

module _ {ℓ} {V : Type ℓ} where
  -- `v, ok := m[k]`
  unfoldable pub lookup : String → Dict V → Option V
  lookup key [] = none
  lookup key ((name, value) ∷ others) = if name == key then some value else lookup key others

  -- `m[k] = v`
  unfoldable pub insert : String → V → Dict V → Dict V
  insert key value [] = (key, value) ∷ []
  insert key value ((name, old) ∷ others) =
      if name == key then (key, value) ∷ others else (name, old) ∷ insert key value others

  -- `delete(m, k)`
  unfoldable pub delete : String → Dict V → Dict V
  delete k [] = []
  delete k ((j, w) ∷ m) = if j == k then delete k m else (j, w) ∷ delete k m

  -- `for k, v := range src { dst[k] = v }`
  unfoldable pub insert_all : Dict V → Dict V → Dict V
  insert_all [] dst = dst
  insert_all ((k, v) ∷ src) dst = insert_all src (insert k v dst)

  -- Written at `key`, the map reads at `asked` what it read before, unless the two are one key.
  pub lookup-insert :
      (key asked : String) (value : V) (m : Dict V)
      → lookup asked (insert key value m) ≡ (if key == asked then some value else lookup asked m)
  unfolding lookup insert
  lookup-insert key asked value [] = refl
  lookup-insert key asked value ((name, old) ∷ others) = ground (
    arith,
    lookup-insert key asked value others,
    eq_iff name asked,
    eq_iff key asked,
    eq_iff name key,
  )

  pub lookup-delete :
      (key asked : String) (m : Dict V)
      → lookup asked (delete key m) ≡ (if key == asked then none else lookup asked m)
  unfolding lookup delete
  lookup-delete key asked [] = ground arith
  lookup-delete key asked ((name, old) ∷ others) =
      ground (
        arith,
        lookup-delete key asked others,
        eq_iff name asked,
        eq_iff key asked,
        eq_iff name key,
      )

  pub length-insert : (k : String) (v : V) (m : Dict V) → length (insert k v m) ≤ length m + 1
  unfolding insert
  length-insert k v [] = omega arith
  length-insert k v ((j, w) ∷ m) = ground (arith, length-insert k v m)

  pub length-delete : (k : String) (m : Dict V) → length (delete k m) ≤ length m
  unfolding delete
  length-delete k [] = omega arith
  length-delete k ((j, w) ∷ m) = ground (arith, length-delete k m)

  -- The keys of a Go map are distinct: no later entry has the key of an earlier one.
  abbrev pub IsMap : Dict V → Type ℓ
  IsMap [] = Unit
  IsMap ((k, v) ∷ m) = (lookup k m ≡ none) × IsMap m

  abbrev pub or_else : Option V → Option V → Option V
  or_else none w = w
  or_else (some v) w = some v

  key_apart : (k j : String) (m : Dict V) → k ≡ j → lookup j m ≡ lookup k m
  key_apart k j m e = rw e

  pub lookup-insert_all :
      (j : String) (src dst : Dict V)
      → IsMap src
      → lookup j (insert_all src dst) ≡ or_else (lookup j src) (lookup j dst)
  unfolding insert_all lookup
  lookup-insert_all j [] dst h = refl
  lookup-insert_all j ((k, v) ∷ src) dst h = ground (
    arith,
    lookup-insert_all j src (insert k v dst) h.1,
    lookup-insert k j v dst,
    eq_iff k j,
    h.0,
    key_apart k j src,
  )

  or_else-none : (o : Option V) → or_else o none ≡ o
  or_else-none none = refl
  or_else-none (some v) = refl

  -- The copying loop `copied := make(...); for k, v := range m { copied[k] = v }`.
  pub lookup-copy : (j : String) (m : Dict V) → IsMap m → lookup j (insert_all m []) ≡ lookup j m
  unfolding lookup
  lookup-copy j m h = lookup-insert_all j m [] h ∙ or_else-none (lookup j m)
