-- ===== src/Config/Layers/Structs.antt =====
-- `applyDefaults` and `applyEnv` against the description field by field.
use stricklysoft_core.Prelude.{
  Bool, true, false, Option, String, none, some, ◌≡◌, ◌↔◌, refl, sym, subst, ap, ◌∙◌, if◌then◌else◌,
}
use stricklysoft_core.Errors.{GoError}
use stricklysoft_core.Config.{Struct, no_fields, field, nested, Leaf, Tags}
use stricklysoft_core.Config.Sources.{
  Host, then_rest, default_leaf, apply_defaults, nested_prefix, env_leaf, apply_env,
}
use stricklysoft_core.Config.Layers.{Fieldwise, done, leaf, within, sealed, EnvRule, DefaultRule}
use stricklysoft_core.Config.Layers.Leaves.{
  default_sound, default_complete, env_sound, env_complete,
}

module _ {T : Type 0} (build : T → Struct → Struct) where
  rest_ok :
      (x : T × Option GoError) (rest : Struct) (y : Struct × Option GoError)
      → (then_rest build x rest y).1 ≡ none
      → (x.1 ≡ none) × (y.1 ≡ none) × ((then_rest build x rest y).0 ≡ build x.0 y.0)
  rest_ok (v, none) rest (r, e) h = (refl, h, refl)
  rest_ok (v, some e) rest y h = cc

  rest_done :
      (v : T) (rest r : Struct) (x : T × Option GoError) (y : Struct × Option GoError)
      → x ≡ (v, none)
      → y ≡ (r, none)
      → then_rest build x rest y ≡ (build v r, none)
  rest_done v rest r x y p q = rw (p, q)

pair_eq : {A B : Type 0} (x : A × B) (a : A) (b : B) → x ≡ (a, b) → (x.0 ≡ a) × (x.1 ≡ b)
pair_eq x a b h = (ap (λ y. y.0) h, ap (λ y. y.1) h)

-- What the two loops over the fields have in common: the step at a field that is no struct.
module _ (step : String → Tags → Leaf → Leaf × Option GoError)
    (R : String → Tags → Leaf → Leaf → Type 0) where
  walk : String → Struct → Struct × Option GoError
  walk prefix no_fields = (no_fields, none)
  walk prefix (field tags old rest) =
      then_rest (field tags) (step prefix tags old) rest (walk prefix rest)
  walk prefix (nested tags inner rest) =
      then_rest (nested tags)
        (if tags.can_set then walk (nested_prefix prefix tags.env) inner else (inner, none)) rest
        (walk prefix rest)

  entered :
      (prefix : String) (tags : Tags) (c : Bool) (inner rest rest' : Struct)
      (x : Struct × Option GoError)
      → tags.can_set ≡ c
      → (x.1 ≡ none → Fieldwise R (nested_prefix prefix tags.env) inner x.0)
      → (if c then x else (inner, none)).1 ≡ none
      → Fieldwise R prefix rest rest'
      → Fieldwise R prefix
          (nested tags inner rest)
          (nested tags (if c then x else (inner, none)).0 rest')
  entered prefix tags true inner rest rest' x c ih h others = within c (ih h) others
  entered prefix tags false inner rest rest' x c ih h others = sealed c others

  module _
      (sound : (prefix : String) (tags : Tags) (old : Leaf)
        → (step prefix tags old).1 ≡ none
        → R prefix tags old (step prefix tags old).0) where
    walk_sound :
        (prefix : String) (s : Struct)
        → (walk prefix s).1 ≡ none
        → Fieldwise R prefix s (walk prefix s).0
    unfolding walk
    walk_sound prefix no_fields h = done
    walk_sound prefix (field tags old rest) h =
        let (first, others, same) =
          rest_ok (field tags) (step prefix tags old) rest (walk prefix rest) h in
        subst (Fieldwise R prefix (field tags old rest)) (sym same)
          (leaf (sound prefix tags old first) (walk_sound prefix rest others))
    walk_sound prefix (nested tags inner rest) h =
        let inside = walk (nested_prefix prefix tags.env) inner in
        let (first, others, same) =
          rest_ok (nested tags) (if tags.can_set then inside else (inner, none)) rest
            (walk prefix rest) h in
        subst (Fieldwise R prefix (nested tags inner rest)) (sym same) (
          entered prefix tags tags.can_set inner rest (walk prefix rest).0 inside refl
            (walk_sound (nested_prefix prefix tags.env) inner) first
            (walk_sound prefix rest others))

  module _
      (complete : (prefix : String) (tags : Tags) (old now : Leaf)
        → R prefix tags old now
        → step prefix tags old ≡ (now, none)) where
    walk_complete :
        (prefix : String) (s t : Struct) → Fieldwise R prefix s t → walk prefix s ≡ (t, none)
    unfolding walk
    walk_complete prefix s t done = refl
    walk_complete prefix s t (leaf {tags} {old} {now} {rest} {rest'} r others) =
        rest_done (field tags) now rest rest' (step prefix tags old) (walk prefix rest)
          (complete prefix tags old now r) (walk_complete prefix rest rest' others)
    walk_complete prefix s t (within {tags} {inner} {inner'} {rest} {rest'} c inside others) =
        rest_done (nested tags) inner' rest rest'
          (if tags.can_set then walk (nested_prefix prefix tags.env) inner else (inner, none))
          (walk prefix rest)
          (ap (λ b. if b then walk (nested_prefix prefix tags.env) inner else (inner, none)) c
            ∙ walk_complete (nested_prefix prefix tags.env) inner inner' inside)
          (walk_complete prefix rest rest' others)
    walk_complete prefix s t (sealed {tags} {inner} {rest} {rest'} c others) =
        rest_done (nested tags) inner rest rest'
          (if tags.can_set then walk (nested_prefix prefix tags.env) inner else (inner, none))
          (walk prefix rest)
          (ap (λ b. if b then walk (nested_prefix prefix tags.env) inner else (inner, none)) c)
          (walk_complete prefix rest rest' others)

  walk_iff :
      ((prefix : String) (tags : Tags) (old : Leaf)
        → (step prefix tags old).1 ≡ none
        → R prefix tags old (step prefix tags old).0)
      → ((prefix : String) (tags : Tags) (old now : Leaf)
          → R prefix tags old now
          → step prefix tags old ≡ (now, none))
      → (prefix : String) (s t : Struct) → (walk prefix s ≡ (t, none)) ↔ Fieldwise R prefix s t
  walk_iff sound complete prefix s t = (
    λ h.
        subst (Fieldwise R prefix s) (ap (λ x. x.0) h)
          (walk_sound sound prefix s (ap (λ x. x.1) h)),
    walk_complete complete prefix s t,
  )

-- The defaults know no prefix.
default-walk :
    (host : Host) (prefix : String) (s : Struct)
    → apply_defaults host s ≡ walk (λ _. default_leaf host) (DefaultRule host) prefix s
unfolding apply_defaults walk
default-walk host prefix no_fields = refl
default-walk host prefix (field tags old rest) =
    ap (then_rest (field tags) (default_leaf host tags old) rest) (default-walk host prefix rest)
default-walk host prefix (nested tags inner rest) = λ i.
    then_rest (nested tags)
      (if tags.can_set
        then default-walk host (nested_prefix prefix tags.env) inner i
        else (inner, none))
      rest (default-walk host prefix rest i)

module _ (host : Host) (prefix : String) (s t : Struct) where
  -- applyEnv succeeds with a struct exactly when each field of it holds what the environment gives it:
  -- a field that can be set, has an env tag, and whose variable is there, what the variable sets, and
  -- every other field what it held before.
  pub apply_env_iff : (apply_env host prefix s ≡ (t, none)) ↔ Fieldwise (EnvRule host) prefix s t
  unfolding apply_env walk
  apply_env_iff =
      walk_iff (env_leaf host) (EnvRule host) (env_sound host) (env_complete host) prefix s t

  -- applyDefaults succeeds with a struct exactly when each field of it holds its default or its old
  -- value: a field that can be set, is zero and has an envDefault tag, what the tag sets, and every
  -- other field what it held before.
  pub apply_defaults_iff :
      (apply_defaults host s ≡ (t, none)) ↔ Fieldwise (DefaultRule host) prefix s t
  apply_defaults_iff = rw (default-walk host prefix s) (
      walk_iff (λ _. default_leaf host) (DefaultRule host) (λ _. default_sound host)
        (λ _. default_complete host) prefix s t)
