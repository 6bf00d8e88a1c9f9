-- ===== src/Errors/Tests.antt =====
-- Runs of pkg/errors on small inputs, and the theorems at concrete inputs.
use stricklysoft_core.Prelude.{◌≡◌, refl, true, none, some, [], ◌∷◌}
use stricklysoft_core.Value.{bool}
use stricklysoft_core.Errors.{Error, plain, platform, error, no_cause, caused_by}
use stricklysoft_core.Errors.Codes.{code_internal}
use stricklysoft_core.Errors.Checks.{as_error, get_code, is_server_error, from_error}
use stricklysoft_core.Errors.Laws.{layers, from_error-layers}

abbrev clash : Error
clash = error "CONF_001" "taken" no_cause (("id", bool true) ∷ [])

clash_found : as_error (some (platform clash)) ≡ some clash
unfolding as_error
clash_found = refl

abbrev slow : Error
slow = error "TIMEOUT_001" "late" no_cause []

slow_found : as_error (some (platform slow)) ≡ some slow
unfolding as_error
slow_found = refl

slow_is_server : is_server_error (some (platform slow)) ≡ true
unfolding is_server_error
slow_is_server = refl

from_error-layers_example :
    (get_code (some (layers ("a" ∷ "b" ∷ []) (plain "c"))) ≡ get_code (some (plain "c")))
    × (from_error (some (layers ("a" ∷ "b" ∷ []) (plain "c")))
        ≡ elim (as_error (some (plain "c"))) [
          | some e ↦ some e
          | none ↦ some (
              error code_internal "an unexpected error occurred"
                (caused_by (layers ("a" ∷ "b" ∷ []) (plain "c")))
                [])
        ])
from_error-layers_example = from_error-layers ("a" ∷ "b" ∷ []) (plain "c")
