-- ===== src/Auth/Jwt/ServiceAccount.antt =====
-- pkg/auth/k8s.go: a service that validates its own service account token, read from a file.
use Prim.Native.String.{◌++◌}
use stricklysoft_core.Prelude.{String, ◌==◌, if◌then◌else◌, trim_space, List}
use stricklysoft_core.Errors.{plain, wrapped}
use stricklysoft_core.Errors.Results.{Result, ok, err}
use stricklysoft_core.Auth.Identity.{Identity}
use stricklysoft_core.Value.{Claims}
use stricklysoft_core.Auth.Permission.{Permission}
use stricklysoft_core.Auth.Jwt.Keys.{Remote}
use stricklysoft_core.Auth.Jwt.Validator.{System, JwtPackage}
use stricklysoft_core.Auth.Jwt.Validate.{validate}
use stricklysoft_core.Auth.Jwt.Config.{default_sa_token_path}

abbrev or_default_path : String → String
or_default_path path = if path == "" then default_sa_token_path else path

abbrev trimmed_token : String → Result String → Result String
trimmed_token path (err e) =
    err (wrapped ("auth: failed to read service account token from " ++ path) e)
trimmed_token path (ok bytes) =
    let token = trim_space bytes in
    if token == ""
    then err (plain ("auth: service account token file " ++ path ++ " is empty"))
    else ok token

-- `ReadServiceAccountToken`; `os.ReadFile` is an argument.
unfoldable pub read_service_account_token : (String → Result String) → String → Result String
unfolding trim_space
read_service_account_token read_file path =
    let p = or_default_path path in trimmed_token p (read_file p)

module _ {W : Type 0} (remote : Remote W) (jwt : JwtPackage) (mapper : Claims → List Permission)
    (read_file : String → Result String) where
  -- `ValidateServiceAccount`
  unfoldable pub validate_service_account : System W → Result Identity × System W
  unfolding read_service_account_token validate
  validate_service_account s =
      elim (read_service_account_token read_file (or_default_path s.config.sa_token_path)) [
        | err e ↦ (err e, s)
        | ok token ↦ validate remote jwt mapper token s
      ]
