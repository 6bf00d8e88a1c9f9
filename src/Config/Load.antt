-- ===== src/Config/Load.antt =====
-- What `Load` does with a struct, from its layers.
use stricklysoft_core.Prelude.{
  Option, none, some, ◌≡◌, ◌↔◌, refl, subst, sym, ap, ◌∙◌, arith, inl, inr, Option-cases,
}
use stricklysoft_core.Errors.{GoError, wrap}
use stricklysoft_core.Errors.Checks.{as_error}
use stricklysoft_core.Config.{Struct}
use stricklysoft_core.Config.Sources.{Host, Loader, apply_defaults, apply_env}
use stricklysoft_core.Config.Loader.{
  validate_required, custom_checked, and_then, validate, Custom, validation_error, Target,
  pointer_to, populate, load,
}
use stricklysoft_core.Config.Layers.{Fieldwise, DefaultRule, EnvRule}
use stricklysoft_core.Config.Layers.Structs.{apply_defaults_iff, apply_env_iff}
use stricklysoft_core.Config.Layers.Priority.{ConfigRule, layers_composed}
use stricklysoft_core.Config.Required.{IsComplete, validate_required_iff}
use stricklysoft_core.Config.Layers.File.{
  FileLayer, NoFile, file_step, FileLayer-sound, FileLayer-complete, unread,
}

and_then_iff :
    (x : Struct × Option GoError) (step : Struct → Struct × Option GoError) (t : Struct)
    → (and_then x step ≡ (t, none)) ↔ ((m : Struct) × (x ≡ (m, none)) × (step m ≡ (t, none)))
and_then_iff (m, none) step t = (λ h. (m, refl, h), λ k. ap step (ap (λ x. x.0) k.1) ∙ k.2)
and_then_iff (m, some e) step t = (λ h. absurd (cc), λ k. absurd (cc (k.1)))

-- What the Validate method of the struct makes of it, if there is one, without an error.
abbrev pub Accepts : Custom → Struct → Struct → Type 0
Accepts none u t = u ≡ t
Accepts (some check) u t = check u ≡ (t, none)

validation_none : (o : Option GoError) → validation_error o ≡ none → o ≡ none
unfolding wrap
validation_none none h = refl
validation_none (some e) h = elim (Option-cases (as_error (some e))) [
  | inl n ↦ absurd (ground (arith, h, n))
  | inr (x, f) ↦ absurd (ground (arith, h, f))
]

custom_iff :
    (custom : Custom) (u t : Struct) → (custom_checked custom u ≡ (t, none)) ↔ Accepts custom u t
custom_iff none u t = (λ h. ap (λ x. x.0) h, λ h. ap (λ x. (x, none)) h)
custom_iff (some check) u t = (
  λ h.
      let passed = validation_none (check u).1 (ap (λ x. x.1) h) in
      ap (λ o. ((check u).0, o)) passed ∙ ap (λ x. (x.0, none)) h,
  λ h. ap (λ x. (x.0, validation_error x.1)) h,
)

module _ (custom : Custom) where
  checked_sound : (u t : Struct) → validate custom u ≡ (t, none) → IsComplete u × Accepts custom u t
  unfolding validate
  checked_sound u t h =
      let (m, valid, checked) =
        (and_then_iff (u, validate_required "" u) (custom_checked custom) t).0 h in
      let same : m ≡ u = sym (ap (λ x. x.0) valid) in
      (
        (validate_required_iff "" u).0 (ap (λ x. x.1) valid),
        subst (λ x. Accepts custom x t) same ((custom_iff custom m t).0 checked),
      )

  checked_complete :
      (u t : Struct) → IsComplete u → Accepts custom u t → validate custom u ≡ (t, none)
  unfolding validate
  checked_complete u t c accepts =
      ap (λ o. and_then (u, o) (custom_checked custom)) ((validate_required_iff "" u).1 c)
      ∙ (custom_iff custom u t).1 accepts

targeted :
    (x : Struct × Option GoError) (t : Struct)
    → (◌≡◌ {A = Target × Option GoError} (pointer_to x.0, x.1) (pointer_to t, none))
      ↔ (x ≡ (t, none))
targeted (u, o) t = (λ h. ground arith, λ h. ground arith)

module _ (l : Loader) (host : Host) (custom : Custom) (s t : Struct) where
  through_file : Struct × Option GoError
  through_file = and_then (apply_defaults host s) (file_step host l.file_path)

  populate_sound :
      populate l host custom s ≡ (t, none)
      → (d f u : Struct) × Fieldwise (DefaultRule host) l.env_prefix s d
        × FileLayer host l.file_path d f
        × Fieldwise (EnvRule host) l.env_prefix f u
        × IsComplete u
        × Accepts custom u t
  unfolding populate through_file
  populate_sound h =
      let (u, env, checked) =
        (and_then_iff (and_then through_file (apply_env host l.env_prefix)) (validate custom) t).0
          h in
      let (f, filed, overridden) =
        (and_then_iff through_file (apply_env host l.env_prefix) u).0 env in
      let (d, defaulted, read) =
        (and_then_iff (apply_defaults host s) (file_step host l.file_path) f).0 filed in
      let (complete, accepted) = checked_sound custom u t checked in
      (
        d,
        f,
        u,
        (apply_defaults_iff host l.env_prefix s d).0 defaulted,
        FileLayer-sound host l.file_path d f read,
        (apply_env_iff host l.env_prefix f u).0 overridden,
        complete,
        accepted,
      )

  populate_complete :
      (d f u : Struct)
      → Fieldwise (DefaultRule host) l.env_prefix s d
      → FileLayer host l.file_path d f
      → Fieldwise (EnvRule host) l.env_prefix f u
      → IsComplete u
      → Accepts custom u t
      → populate l host custom s ≡ (t, none)
  unfolding populate through_file
  populate_complete d f u ds fl es complete accepted =
      let defaulted = (apply_defaults_iff host l.env_prefix s d).1 ds in
      let overridden = (apply_env_iff host l.env_prefix f u).1 es in
      let filed =
        (and_then_iff (apply_defaults host s) (file_step host l.file_path) f).1
          (d, defaulted, FileLayer-complete host l.file_path d f fl) in
      (and_then_iff (and_then through_file (apply_env host l.env_prefix)) (validate custom) t).1 (
        u,
        (and_then_iff through_file (apply_env host l.env_prefix) u).1 (f, filed, overridden),
        checked_complete custom u t complete accepted,
      )

  -- Load succeeds with a struct exactly if the layers lead to it: the defaults first, then the file,
  -- if there is one, then the environment, each described field by field; if then no required field is
  -- zero; and if the Validate method of the struct, where it has one, returns no error and leaves that
  -- struct.
  pub load_iff : (load l host custom (pointer_to s) ≡ (pointer_to t, none)) ↔ (
      (d f u : Struct) × Fieldwise (DefaultRule host) l.env_prefix s d
      × FileLayer host l.file_path d f
      × Fieldwise (EnvRule host) l.env_prefix f u
      × IsComplete u
      × Accepts custom u t)
  unfolding load populate
  load_iff =
      let target = targeted (populate l host custom s) t in
      (
        λ h. populate_sound (target.0 h),
        λ k. target.1 (populate_complete k.0 k.1 k.2 k.3 k.4 k.5 k.6 k.7),
      )

-- Where there is no configuration file and Load succeeds, each field of the struct that it has filled
-- holds, if it can be set and its variable is there, what the variable sets; else, if it was zero and
-- has a default, what the default sets; else what it held before. No required field of that struct is
-- zero; it is the result if the struct has no Validate method, and what that method makes of it is the
-- result otherwise.
pub load-Configured :
    (l : Loader) (host : Host) (custom : Custom) (s t : Struct)
    → NoFile host l.file_path
    → load l host custom (pointer_to s) ≡ (pointer_to t, none)
    → (u : Struct) × Fieldwise (ConfigRule host) l.env_prefix s u
      × IsComplete u
      × Accepts custom u t
load-Configured l host custom s t n h =
    let (d, f, u, ds, fl, es, complete, accepted) = (load_iff l host custom s t).0 h in
    let same = unread host l.file_path d f n fl in
    (
      u,
      layers_composed host l.env_prefix s f u
          (subst (Fieldwise (DefaultRule host) l.env_prefix s) same ds) es,
      complete,
      accepted,
    )
