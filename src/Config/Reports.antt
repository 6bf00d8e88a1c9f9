-- ===== src/Config/Reports.antt =====
-- The errors that the loader returns, the custom validation's included.
use stricklysoft_core.Prelude.{
  Option, none, some, ◌≡◌, ◌⊎◌, inl, inr, refl, ◌==◌, Option-cases, subst, ap, ◌∙◌,
}
use stricklysoft_core.Errors.{GoError, Error, new, wrap}
use stricklysoft_core.Errors.Codes.{Code, code_validation}
use stricklysoft_core.Errors.Checks.{as_error}
use stricklysoft_core.Config.{Struct}
use stricklysoft_core.Config.Sources.{Host, Loader, apply_defaults, apply_env, load_file}
use stricklysoft_core.Config.Loader.{
  validate_required, custom_checked, validate, Target, no_pointer, not_struct, pointer_to, populate,
  load, Custom, validation_error,
}
use stricklysoft_core.Config.Failures.{
  CodeIn, IsRequired, IsLoading, pair_if, and_then_all, CodeIn-widen, defaults_code, env_code,
  file_code, IsRequired-code, loading,
}

-- The error of a Validate method, in whose chain a platform error is found.
pub data OwnError (check : Struct → Struct × Option GoError) : Option GoError → Type 0 where
  own : {s : Struct} {x : Error} → as_error (check s).1 ≡ some x → OwnError check (check s).1

-- A failure of loading, a required field that is zero, or a failure of the Validate method.
abbrev pub IsReported : Code → Type 0
IsReported c = IsLoading c ⊎ (c ≡ code_validation)

-- What Load reports of a struct with that Validate method, or without one.
abbrev pub Reported : Custom → Option GoError → Type 0
Reported none o = CodeIn IsLoading o
Reported (some check) o = CodeIn IsReported o ⊎ OwnError check o

CodeIn-Reported : (custom : Custom) (o : Option GoError) → CodeIn IsLoading o → Reported custom o
CodeIn-Reported none o h = h
CodeIn-Reported (some check) o h = inl (CodeIn-widen IsLoading IsReported o (λ c. inl) h)

checked-Reported :
    (check : Struct → Struct × Option GoError) (s : Struct) (o : Option GoError)
    → (check s).1 ≡ o
    → Reported (some check) (validation_error o)
unfolding wrap
checked-Reported check s none h = inl tt
checked-Reported check s (some e) h = elim (Option-cases (as_error (some e))) [
  | inl n ↦ rw n (inl (inr refl))
  | inr (x, f) ↦ rw f (inr (subst (OwnError check) h (own (ap as_error h ∙ f))))
]

custom-Reported : (custom : Custom) (s : Struct) → Reported custom (custom_checked custom s).1
custom-Reported none s = tt
custom-Reported (some check) s = checked-Reported check s (check s).1 refl

populate-Reported :
    (l : Loader) (host : Host) (custom : Custom) (s : Struct)
    → Reported custom (populate l host custom s).1
unfolding populate validate
populate-Reported l host custom s =
    let loads = CodeIn IsLoading in
    and_then_all (Reported custom) _ (validate custom)
      (CodeIn-Reported custom _ (
        and_then_all loads _ (apply_env host l.env_prefix)
          (and_then_all loads (apply_defaults host s) _
            (loading (apply_defaults host s).1 (defaults_code host s))
            (λ d.
              pair_if IsLoading (l.file_path == "") (d, none) (load_file host l.file_path d) tt
                (loading (load_file host l.file_path d).1 (file_code host l.file_path d))))
          (λ f. loading (apply_env host l.env_prefix f).1 (env_code host l.env_prefix f))))
      (λ t.
        and_then_all (Reported custom) (t, validate_required "" t) (custom_checked custom)
          (CodeIn-Reported custom (validate_required "" t) (
            CodeIn-widen IsRequired IsLoading (validate_required "" t) (λ c. inr)
              (IsRequired-code "" t)))
          (custom-Reported custom))

-- Every error that Load returns is a platform error, and its code is that of a configuration failure
-- or that of a missing required value; or, for a struct with a Validate method of its own, that of a
-- failed validation; or it is what that method returned, and a platform error is in its chain.
pub load-Reported :
    (l : Loader) (host : Host) (custom : Custom) (target : Target)
    → Reported custom (load l host custom target).1
unfolding load new
load-Reported l host custom no_pointer = CodeIn-Reported custom _ (inl refl)
load-Reported l host custom not_struct = CodeIn-Reported custom _ (inl refl)
load-Reported l host custom (pointer_to s) = populate-Reported l host custom s
