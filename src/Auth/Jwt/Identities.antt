-- ===== src/Auth/Jwt/Identities.antt =====
-- pkg/auth/jwt.go: the identities that the validators of the three token types make of the claims.
use stricklysoft_core.Prelude.{not, String, none, some, List, [], ◌==◌, if◌then◌else◌, insert_all}
use stricklysoft_core.Value.{Claims}
use stricklysoft_core.Errors.{platform, error, caused_by, new}
use stricklysoft_core.Errors.Codes.{Code, code_authentication_invalid}
use stricklysoft_core.Errors.Results.{Result, ok, err}
use stricklysoft_core.Auth.Permission.{Permission}
use stricklysoft_core.Auth.Identity.{
  Identity, basic, service, user, new_basic_identity, new_service_identity, new_user_identity,
  type_service, type_user,
}
use stricklysoft_core.Auth.Jwt.Kubernetes.{text_or_empty, parse_service_account}
use stricklysoft_core.Auth.Jwt.Validator.{Token}

abbrev pub invalid : {A : Type 0} → String → Result A
invalid message = err (platform (new code_authentication_invalid message))

-- `sserr.Wrap(err, CodeAuthenticationInvalid, message)` of the error of an identity's constructor
abbrev pub as_invalid : {A : Type 0} → Code → String → Result A → Result A
as_invalid code message (ok a) = ok a
as_invalid code message (err e) = err (platform (error code message (caused_by e) []))

abbrev pub map_result : {A B : Type 0} → (A → B) → Result A → Result B
map_result f (ok a) = ok (f a)
map_result f (err e) = err e

-- The claims of a verified token, a copy of the map.
abbrev pub valid_claims : String → Token → Result Claims
valid_claims message t = elim t.claims [
  | none ↦ invalid message
  | some mc ↦ if t.is_valid then ok (insert_all mc []) else invalid message
]

-- The identity that `validatePlatformToken` makes of the claims.
unfoldable pub platform_identity : Claims → List Permission → Result Identity
unfolding new_user_identity new_service_identity new_basic_identity
platform_identity claims permissions =
    let sub = text_or_empty "sub" claims in
    let email = text_or_empty "email" claims in
    let service_name = text_or_empty "service_name" claims in
    if not (email == "")
    then as_invalid code_authentication_invalid
        "auth: failed to create user identity from platform token"
        (map_result user
          (new_user_identity sub email (text_or_empty "name" claims) claims permissions))
    else if not (service_name == "")
    then as_invalid code_authentication_invalid
        "auth: failed to create service identity from platform token"
        (map_result service (
          new_service_identity sub service_name (text_or_empty "namespace" claims) claims
            permissions))
    else ok (basic (new_basic_identity sub type_service claims))

-- The identity that `validateOIDCToken` makes of the claims.
unfoldable pub oidc_identity : Claims → List Permission → Result Identity
unfolding new_user_identity new_basic_identity
oidc_identity claims permissions =
    let sub = text_or_empty "sub" claims in
    let email = text_or_empty "email" claims in
    if email == ""
    then ok (basic (new_basic_identity sub type_user claims))
    else as_invalid code_authentication_invalid
        "auth: failed to create user identity from OIDC token"
        (map_result user
          (new_user_identity sub email (text_or_empty "name" claims) claims permissions))

-- The identity that `validateKubernetesToken` makes of the claims.
unfoldable pub kubernetes_identity : Claims → List Permission → Result Identity
unfolding parse_service_account
kubernetes_identity claims permissions =
    as_invalid code_authentication_invalid "auth: failed to parse kubernetes service account claims"
      (map_result service (parse_service_account claims permissions))
