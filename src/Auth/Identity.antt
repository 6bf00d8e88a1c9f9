-- ===== src/Auth/Identity.antt =====
-- pkg/auth/identity.go: identities. `Permission` is in Auth/Permission, the call chain in
-- Auth/CallChain.
use stricklysoft_core.Prelude.{Bool, false, ◌||◌, String, List, ◌==◌, if◌then◌else◌, [], insert_all}
use stricklysoft_core.Value.{Claims}
use stricklysoft_core.Errors.{plain}
use stricklysoft_core.Errors.Results.{Result, ok, err}
use stricklysoft_core.Auth.Permission.{Permission, has_permission}

-- `type IdentityType string`
abbrev pub IdentityType : Type 0
IdentityType = String

abbrev pub type_user : IdentityType
type_user = "user"

abbrev pub type_service : IdentityType
type_service = "service"

abbrev pub type_agent : IdentityType
type_agent = "agent"

abbrev pub type_system : IdentityType
type_system = "system"

-- `IdentityType.Valid`
unfoldable pub valid_type : IdentityType → Bool
valid_type t = t == type_user || t == type_service || t == type_agent || t == type_system

pub record BasicIdentity : Type 0 where
  pub id : String
  pub id_type : IdentityType
  pub claims : Claims

pub record ServiceIdentity : Type 0 where
  pub id : String
  pub service_name : String
  pub namespace : String
  pub claims : Claims
  pub permissions : List Permission

pub record UserIdentity : Type 0 where
  pub id : String
  pub email : String
  pub display_name : String
  pub claims : Claims
  pub permissions : List Permission

-- The interface `Identity`, by its implementations.
pub data Identity : Type 0 where
  basic : BasicIdentity → Identity
  service : ServiceIdentity → Identity
  user : UserIdentity → Identity

-- `copied := make(map[string]any, len(m)); for k, v := range m { copied[k] = v }`
abbrev pub copy_claims : Claims → Claims
copy_claims claims = insert_all claims []

unfoldable pub new_basic_identity : String → IdentityType → Claims → BasicIdentity
new_basic_identity id id_type claims = record {
  id = id;
  id_type = id_type;
  claims = copy_claims claims;
}

unfoldable pub new_service_identity :
    String → String → String → Claims → List Permission → Result ServiceIdentity
new_service_identity id service_name namespace claims permissions =
    if id == ""
    then err (plain "auth: service identity id must not be empty")
    else if service_name == ""
    then err (plain "auth: service identity serviceName must not be empty")
    else ok (record {
      id = id;
      service_name = service_name;
      namespace = namespace;
      claims = copy_claims claims;
      permissions = permissions;
    })

unfoldable pub new_user_identity :
    String → String → String → Claims → List Permission → Result UserIdentity
new_user_identity id email display_name claims permissions =
    if id == ""
    then err (plain "auth: user identity id must not be empty")
    else if email == ""
    then err (plain "auth: user identity email must not be empty")
    else ok (record {
      id = id;
      email = email;
      display_name = display_name;
      claims = copy_claims claims;
      permissions = permissions;
    })

-- `ID`
unfoldable pub id_of : Identity → String
id_of (basic b) = b.id
id_of (service s) = s.id
id_of (user u) = u.id

-- `Type`
unfoldable pub type_of : Identity → IdentityType
type_of (basic b) = b.id_type
type_of (service s) = type_service
type_of (user u) = type_user

-- `Claims`, a copy of the map
unfoldable pub claims_of : Identity → Claims
claims_of (basic b) = copy_claims b.claims
claims_of (service s) = copy_claims s.claims
claims_of (user u) = copy_claims u.claims

-- `HasPermission`
unfoldable pub identity_has_permission : Identity → String → String → Bool
identity_has_permission (basic b) resource action = false
identity_has_permission (service s) resource action = has_permission s.permissions resource action
identity_has_permission (user u) resource action = has_permission u.permissions resource action
