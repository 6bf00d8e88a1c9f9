-- ===== src/Auth/Jwt/Classify.antt =====
-- pkg/auth/jwt.go: `classifyError`, by which `Validate` turns any error into a platform error. The
-- error variables of the JWT package are known by their names.
use stricklysoft_core.Prelude.{
  ◌≡◌, refl, ap, ◌∙◌, ◌||◌, String, none, some, [], arith, if◌then◌else◌, contains,
}
use stricklysoft_core.Errors.{
  GoError, Error, error, caused_by, error_text, code_of, cause_of, http_status,
}
use stricklysoft_core.Errors.Codes.{
  Code, category, code_authentication, code_authentication_expired, code_authentication_invalid,
}
use stricklysoft_core.Errors.Checks.{find_platform}
use stricklysoft_core.Errors.Chains.{is_error}

-- `sserr.Wrap` of an error that is not nil.
abbrev wrap_error : GoError → Code → String → Error
wrap_error e c m = error c m (caused_by e) []

-- `classifyError`, which is not given nil by its callers, and its alias `classifyJWTError`
unfoldable pub classify_error : GoError → Error
unfolding find_platform
classify_error e = elim (find_platform e) [
  | some found ↦ found
  | none ↦
      if is_error "jwt.ErrTokenExpired" e
      then wrap_error e code_authentication_expired "auth: token has expired"
      else if is_error "jwt.ErrTokenMalformed" e
      then wrap_error e code_authentication_invalid "auth: token is malformed"
      else if is_error "jwt.ErrSignatureInvalid" e
      then wrap_error e code_authentication_invalid "auth: token signature is invalid"
      else if is_error "jwt.ErrTokenUnverifiable" e
      then wrap_error e code_authentication_invalid "auth: token is unverifiable"
      else if is_error "jwt.ErrTokenNotValidYet" e
      then wrap_error e code_authentication_invalid "auth: token is not yet valid"
      else if is_error "jwt.ErrTokenInvalidAudience" e
      then wrap_error e code_authentication_invalid "auth: token audience is invalid"
      else if is_error "jwt.ErrTokenInvalidIssuer" e
      then wrap_error e code_authentication_invalid "auth: token issuer is invalid"
      else if is_error "jwt.ErrTokenInvalidClaims" e
      then wrap_error e code_authentication_invalid "auth: token claims are invalid"
      else if contains "no matching validator" (error_text e)
      then wrap_error e code_authentication "auth: no matching validator for token"
      else wrap_error e code_authentication_invalid "auth: token validation failed"
]

-- The three codes that a foreign error can be given.
abbrev pub foreign_code : GoError → Code
foreign_code e =
    if is_error "jwt.ErrTokenExpired" e
    then code_authentication_expired
    else if is_error "jwt.ErrTokenMalformed" e
        || is_error "jwt.ErrSignatureInvalid" e
        || is_error "jwt.ErrTokenUnverifiable" e
        || is_error "jwt.ErrTokenNotValidYet" e
        || is_error "jwt.ErrTokenInvalidAudience" e
        || is_error "jwt.ErrTokenInvalidIssuer" e
        || is_error "jwt.ErrTokenInvalidClaims" e
    then code_authentication_invalid
    else if contains "no matching validator" (error_text e)
    then code_authentication
    else code_authentication_invalid

classify_code : (e : GoError) → find_platform e ≡ none → code_of (classify_error e) ≡ foreign_code e
unfolding classify_error
classify_code e h = ground arith

classify_cause : (e : GoError) → find_platform e ≡ none → cause_of (classify_error e) ≡ caused_by e
unfolding classify_error
classify_cause e h = ground arith

category_auth : category code_authentication ≡ "AUTH"
unfolding category
category_auth = refl

category_expired : category code_authentication_expired ≡ "AUTH"
unfolding category
category_expired = refl

category_invalid : category code_authentication_invalid ≡ "AUTH"
unfolding category
category_invalid = refl

foreign_category : (e : GoError) → category (foreign_code e) ≡ "AUTH"
foreign_category e = ground (arith, category_auth, category_expired, category_invalid)

auth_status : (x : Error) → category (code_of x) ≡ "AUTH" → http_status x ≡ 401
unfolding http_status
auth_status x h = rw h

-- An error with no platform error in its tree is classified as an authentication error: it is the
-- cause of the result, whose HTTP status is 401, and its code says "expired" if the tree has the
-- JWT package's error for that, and otherwise "invalid", unless no validator matched.
classify_error-foreign :
    (e : GoError)
    → find_platform e ≡ none
    → (code_of (classify_error e) ≡ foreign_code e)
      × (cause_of (classify_error e) ≡ caused_by e)
      × (http_status (classify_error e) ≡ 401)
classify_error-foreign e h = (
  classify_code e h,
  classify_cause e h,
  auth_status (classify_error e) (ap category (classify_code e h) ∙ foreign_category e),
)
