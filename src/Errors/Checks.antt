-- ===== src/Errors/Checks.antt =====
-- pkg/errors/checks.go, and `FromError` of constructors.go.
use stricklysoft_core.Prelude.{Bool, false, ◌||◌, String, Option, none, some, ◌==◌}
use stricklysoft_core.Errors.{
  GoError, Error, plain, named, wrapped, joined, platform, code_of, wrap,
}
use stricklysoft_core.Errors.Codes.{Code, category, code_internal}

abbrev pub first_some {ℓ} : {A : Type ℓ} → Option A → Option A → Option A
first_some (some a) o = some a
first_some none o = o

-- `errors.As(err, &e)` with e a *Error: the first platform error of the tree, depth first.
unfoldable pub find_platform : GoError → Option Error
find_platform (plain m) = none
find_platform (named n m) = none
find_platform (wrapped m e) = find_platform e
find_platform (joined a b) = first_some (find_platform a) (find_platform b)
find_platform (platform e) = some e

-- `AsError`: errors.As of nil is false.
unfoldable pub as_error : Option GoError → Option Error
unfolding find_platform
as_error none = none
as_error (some e) = find_platform e

abbrev pub code_or_empty : Option Error → Code
code_or_empty none = ""
code_or_empty (some e) = code_of e

unfoldable pub get_code : Option GoError → Code
unfolding as_error
get_code err = code_or_empty (as_error err)

unfoldable pub has_code : Option GoError → Code → Bool
unfolding get_code
has_code err c = get_code err == c

-- `e, ok := AsError(err)` and a test of the category that is false where ok is false.
abbrev pub in_category : (String → Bool) → Option Error → Bool
in_category test none = false
in_category test (some e) = test (category (code_of e))

unfoldable pub is_validation : Option GoError → Bool
unfolding as_error category
is_validation err = in_category (λ c. c == "VAL") (as_error err)

unfoldable pub is_authentication : Option GoError → Bool
unfolding as_error category
is_authentication err = in_category (λ c. c == "AUTH") (as_error err)

unfoldable pub is_authorization : Option GoError → Bool
unfolding as_error category
is_authorization err = in_category (λ c. c == "AUTHZ") (as_error err)

unfoldable pub is_not_found : Option GoError → Bool
unfolding as_error category
is_not_found err = in_category (λ c. c == "NF") (as_error err)

unfoldable pub is_conflict : Option GoError → Bool
unfolding as_error category
is_conflict err = in_category (λ c. c == "CONF") (as_error err)

unfoldable pub is_internal : Option GoError → Bool
unfolding as_error category
is_internal err = in_category (λ c. c == "INT") (as_error err)

unfoldable pub is_unavailable : Option GoError → Bool
unfolding as_error category
is_unavailable err = in_category (λ c. c == "UNAVAIL") (as_error err)

unfoldable pub is_timeout : Option GoError → Bool
unfolding as_error category
is_timeout err = in_category (λ c. c == "TIMEOUT") (as_error err)

unfoldable pub is_retryable : Option GoError → Bool
unfolding as_error category
is_retryable err = in_category (λ c. c == "TIMEOUT" || c == "UNAVAIL") (as_error err)

unfoldable pub is_client_error : Option GoError → Bool
unfolding as_error category
is_client_error err =
    in_category (λ c. c == "VAL" || c == "AUTH" || c == "AUTHZ" || c == "NF" || c == "CONF")
      (as_error err)

unfoldable pub is_server_error : Option GoError → Bool
unfolding as_error category
is_server_error err =
    in_category (λ c. c == "INT" || c == "UNAVAIL" || c == "TIMEOUT") (as_error err)

abbrev pub or_internal : GoError → Option Error → Option Error
or_internal err (some e) = some e
or_internal err none = wrap (some err) code_internal "an unexpected error occurred"

unfoldable pub from_error : Option GoError → Option Error
unfolding find_platform wrap
from_error none = none
from_error (some err) = or_internal err (find_platform err)
