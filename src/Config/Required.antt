-- ===== src/Config/Required.antt =====
-- Which structs `validateRequired` accepts.
use stricklysoft_core.Prelude.{
  false, String, Option, none, some, ◌≡◌, ◌≢◌, ◌↔◌, ◌==◌, if◌then◌else◌, refl, arith, eq_iff,
  Bool-cases, inl, inr,
}
use stricklysoft_core.Errors.Checks.{first_some}
use stricklysoft_core.Config.{Leaf, Tags, Struct, no_fields, field, nested, is_zero}
use stricklysoft_core.Config.Loader.{validate_required, join_path}

-- No field that can be set and is tagged required is zero, in the structs that can be set.
pub data IsComplete : Struct → Type 0 where
  done : IsComplete no_fields
  given :
      {tags : Tags} {v : Leaf} {rest : Struct}
      → is_zero v ≡ false
      → IsComplete rest
      → IsComplete (field tags v rest)
  optional :
      {tags : Tags} {v : Leaf} {rest : Struct}
      → tags.required ≢ "true"
      → IsComplete rest
      → IsComplete (field tags v rest)
  no_setter :
      {tags : Tags} {v : Leaf} {rest : Struct}
      → tags.can_set ≡ false
      → IsComplete rest
      → IsComplete (field tags v rest)
  within :
      {tags : Tags} {inner rest : Struct}
      → IsComplete inner
      → IsComplete rest
      → IsComplete (nested tags inner rest)
  sealed :
      {tags : Tags} {inner rest : Struct}
      → tags.can_set ≡ false
      → IsComplete rest
      → IsComplete (nested tags inner rest)

absent {ℓ} : {A : Type ℓ} (a b : Option A) → first_some a b ≡ none → (a ≡ none) × (b ≡ none)
absent none b h = (refl, h)
absent (some a) b h = cc

field_complete :
    (path : String) (tags : Tags) (v : Leaf) (rest : Struct)
    → (validate_required path rest ≡ none → IsComplete rest)
    → validate_required path (field tags v rest) ≡ none
    → IsComplete (field tags v rest)
unfolding validate_required
field_complete path tags v rest ih h = elim (Bool-cases tags.can_set) [
  | inr c ↦ no_setter c (ih (ground arith))
  | inl c ↦ elim (Bool-cases (tags.required == "true")) [
    | inr r ↦ optional (ground (arith, eq_iff tags.required "true")) (ih (ground arith))
    | inl r ↦ elim (Bool-cases (is_zero v)) [
      | inr z ↦ given z (ih (ground arith))
      | inl z ↦ absurd (ground arith)
    ]
  ]
]

required_sound : (path : String) (s : Struct) → validate_required path s ≡ none → IsComplete s
unfolding validate_required
required_sound path no_fields h = done
required_sound path (field tags v rest) h =
    field_complete path tags v rest (required_sound path rest) h
required_sound path (nested tags inner rest) h =
    let (inside, others) =
      absent (if tags.can_set then validate_required (join_path path tags.name) inner else none)
        (validate_required path rest) h in
    elim (Bool-cases tags.can_set) [
      | inl c ↦
          within (required_sound (join_path path tags.name) inner (ground arith))
            (required_sound path rest others)
      | inr c ↦ sealed c (required_sound path rest others)
    ]

required_complete : (path : String) (s : Struct) → IsComplete s → validate_required path s ≡ none
unfolding validate_required
required_complete path s done = refl
required_complete path s (given {rest} z more) = ground (arith, required_complete path rest more)
required_complete path s (optional {tags} {rest} r more) =
    ground (arith, eq_iff tags.required "true", required_complete path rest more)
required_complete path s (no_setter {rest} c more) =
    ground (arith, required_complete path rest more)
required_complete path s (within {tags} {inner} {rest} inside more) = ground (
  arith,
  required_complete (join_path path tags.name) inner inside,
  required_complete path rest more,
)
required_complete path s (sealed {rest} c more) = ground (arith, required_complete path rest more)

-- validateRequired accepts a struct exactly when every field that can be set and is tagged required
-- is not zero, nested structs that can be set included.
pub validate_required_iff :
    (path : String) (s : Struct) → (validate_required path s ≡ none) ↔ IsComplete s
validate_required_iff path s = (required_sound path s, required_complete path s)
