-- ===== src/Models/Execution/Tests.antt =====
-- Runs of pkg/models on small inputs, and the theorems at concrete inputs.
use stricklysoft_core.Prelude.{◌≡◌, refl, ◌↔◌, String, none, some, [], ℤ, pos, negsuc}
use stricklysoft_core.Errors.Results.{ok}
use stricklysoft_core.Models.Execution.{Execution, new_execution, validate, duration}
use stricklysoft_core.Models.Execution.Validation.{IsComplete, validate_iff}

abbrev shown : ℤ → String
shown (pos n) = "a count"
shown (negsuc n) = "a debt"

abbrev made : Execution
made = record {
  id = "7f";
  identity_id = "u1";
  intent = "summarize";
  status = "pending";
  start_time = 100;
  end_time = none;
  pod_name = "";
  namespace = "prod";
  ai_model = "";
  tokens_used = pos 0;
  error_message = "";
  metadata = [];
  created_at = 100;
  updated_at = 100;
}

is_made : new_execution "7f" 100 "u1" "summarize" "prod" ≡ ok made
unfolding new_execution
is_made = refl

validate_iff_example : (validate shown made ≡ none) ↔ IsComplete made
validate_iff_example = validate_iff shown made

-- An end before the start gives a negative duration.
ended_early : duration (record made { end_time = some 40 }) 300 ≡ negsuc 59
unfolding duration
ended_early = refl
