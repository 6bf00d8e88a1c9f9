-- ===== src/Errors/Codes.antt =====
-- pkg/errors/codes.go: `type Code string` and its constants.
use stricklysoft_core.Prelude.{String, ◌≡◌, refl, if◌then◌else◌, is_char}

abbrev pub Code : Type 0
Code = String

abbrev pub code_validation : Code
code_validation = "VAL_001"

abbrev pub code_validation_required : Code
code_validation_required = "VAL_002"

abbrev pub code_validation_format : Code
code_validation_format = "VAL_003"

abbrev pub code_validation_range : Code
code_validation_range = "VAL_004"

abbrev pub code_authentication : Code
code_authentication = "AUTH_001"

abbrev pub code_authentication_expired : Code
code_authentication_expired = "AUTH_002"

abbrev pub code_authentication_invalid : Code
code_authentication_invalid = "AUTH_003"

abbrev pub code_authorization : Code
code_authorization = "AUTHZ_001"

abbrev pub code_authorization_denied : Code
code_authorization_denied = "AUTHZ_002"

abbrev pub code_authorization_insufficient_scope : Code
code_authorization_insufficient_scope = "AUTHZ_003"

abbrev pub code_not_found : Code
code_not_found = "NF_001"

abbrev pub code_not_found_user : Code
code_not_found_user = "NF_002"

abbrev pub code_not_found_resource : Code
code_not_found_resource = "NF_003"

abbrev pub code_conflict : Code
code_conflict = "CONF_001"

abbrev pub code_conflict_already_exists : Code
code_conflict_already_exists = "CONF_002"

abbrev pub code_conflict_version_mismatch : Code
code_conflict_version_mismatch = "CONF_003"

abbrev pub code_internal : Code
code_internal = "INT_001"

abbrev pub code_internal_database : Code
code_internal_database = "INT_002"

abbrev pub code_internal_configuration : Code
code_internal_configuration = "INT_003"

abbrev pub code_unavailable : Code
code_unavailable = "UNAVAIL_001"

abbrev pub code_unavailable_dependency : Code
code_unavailable_dependency = "UNAVAIL_002"

abbrev pub code_unavailable_overloaded : Code
code_unavailable_overloaded = "UNAVAIL_003"

abbrev pub code_timeout : Code
code_timeout = "TIMEOUT_001"

abbrev pub code_timeout_database : Code
code_timeout_database = "TIMEOUT_002"

abbrev pub code_timeout_dependency : Code
code_timeout_dependency = "TIMEOUT_003"

-- The text in front of the first underscore; the whole code if there is none.
unfoldable pub category : Code → String
category String.[] = String.[]
category (String.◌∷◌ c s) =
    let rest = category s in if is_char "_" c then String.[] else String.◌∷◌ c rest

category_conflict : category code_conflict ≡ "CONF"
unfolding category
category_conflict = refl
