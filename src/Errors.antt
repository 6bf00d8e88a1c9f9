-- ===== src/Errors.antt =====
-- pkg/errors: the platform error type (types.go) and its constructors (constructors.go).
pub mod Codes
pub mod Results
pub mod Checks
pub mod Chains
pub mod Laws
mod Tests
use stricklysoft_core.Prelude.{
  ℕ, String, Option, none, some, [], Dict, insert, insert_all, ◌==◌, if◌then◌else◌,
}
use stricklysoft_core.Value.{Value}
use Prim.Native.String.{◌++◌}
use Codes.{
  Code, category, code_validation, code_authentication, code_authorization, code_not_found,
  code_conflict, code_internal, code_unavailable, code_timeout,
}

-- Values of Go's `error`; nil is `none` where a value may be nil. `plain` is made by errors.New or
-- by fmt.Errorf without %w, `wrapped` by fmt.Errorf with %w (its text in front of the cause),
-- `named` is an error variable of another package with its name and text, and `joined` unwraps to
-- two errors, as errors.Join does.
mutual
  pub data GoError : Type 0 where
    plain : String → GoError
    named : String → String → GoError
    wrapped : String → GoError → GoError
    joined : GoError → GoError → GoError
    platform : Error → GoError

  -- `Error{Code, Message, Cause, Details}`
  pub data Error : Type 0 where
    error : Code → String → Cause → Dict Value → Error

  pub data Cause : Type 0 where
    no_cause : Cause
    caused_by : GoError → Cause

abbrev pub code_of : Error → Code
code_of (error c m e d) = c

abbrev pub message_of : Error → String
message_of (error c m e d) = m

abbrev pub details_of : Error → Dict Value
details_of (error c m e d) = d

abbrev pub cause_of : Error → Cause
cause_of (error c m e d) = e

-- `Unwrap`
unfoldable pub unwrap : Error → Option GoError
unwrap (error c m no_cause d) = none
unwrap (error c m (caused_by e) d) = some e

-- `Error()` of each kind of error.
unfoldable mutual
  pub error_text : GoError → String
  error_text (plain m) = m
  error_text (named n m) = m
  error_text (wrapped m e) = m ++ ": " ++ error_text e
  error_text (joined a b) = error_text a ++ "\n" ++ error_text b
  error_text (platform e) = platform_text e

  pub platform_text : Error → String
  platform_text (error c m e d) = c ++ ": " ++ m ++ cause_text e

  pub cause_text : Cause → String
  cause_text no_cause = ""
  cause_text (caused_by e) = ": " ++ error_text e

-- `HTTPStatus`
unfoldable pub http_status : Error → ℕ
unfolding category
http_status e =
    let c = category (code_of e) in
    if c == "VAL"
    then 400
    else if c == "AUTH"
    then 401
    else if c == "AUTHZ"
    then 403
    else if c == "NF"
    then 404
    else if c == "CONF"
    then 409
    else if c == "INT"
    then 500
    else if c == "UNAVAIL"
    then 503
    else if c == "TIMEOUT"
    then 504
    else 500

-- The receiver and the argument are not written to: the result has maps of its own.
unfoldable pub with_details : Error → Dict Value → Error
with_details (error c m e old) details = error c m e (insert_all details (insert_all old []))

unfoldable pub with_detail : Error → String → Value → Error
with_detail (error c m e old) key value = error c m e (insert key value (insert_all old []))

-- `New`; `Newf` is the same with a message that fmt.Sprintf has made.
unfoldable pub new : Code → String → Error
new c m = error c m no_cause []

-- `Wrap`; `Wrapf` is the same with a message that fmt.Sprintf has made.
unfoldable pub wrap : Option GoError → Code → String → Option Error
wrap none c m = none
wrap (some e) c m = some (error c m (caused_by e) [])

unfoldable pub validation : String → Error
unfolding new
validation m = new code_validation m

unfoldable pub not_found : String → Error
unfolding new
not_found m = new code_not_found m

unfoldable pub unauthorized : String → Error
unfolding new
unauthorized m = new code_authentication m

unfoldable pub forbidden : String → Error
unfolding new
forbidden m = new code_authorization m

unfoldable pub conflict : String → Error
unfolding new
conflict m = new code_conflict m

unfoldable pub internal : String → Error
unfolding new
internal m = new code_internal m

unfoldable pub unavailable : String → Error
unfolding new
unavailable m = new code_unavailable m

unfoldable pub timeout : String → Error
unfolding new
timeout m = new code_timeout m
