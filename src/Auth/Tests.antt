-- ===== src/Auth/Tests.antt =====
-- Runs of pkg/auth on small inputs, and the theorems at concrete inputs.
use stricklysoft_core.Prelude.{
  drop, length, ◌-◌, ℕ, ◌+◌, ◌-◌, ◌≤◌, ◌≡◌, refl, ◌&&◌, String, none, some, List, [], ◌∷◌, ◌++◌,
  arith, eq_iff, leb, if◌then◌else◌, any, nub, split_n, cut, lookup, insert,
}
use stricklysoft_core.Errors.Results.{ok}
use stricklysoft_core.Auth.Permission.{
  Permission, perm_eq, matches, format_permission, parse_permission_string, parse_scope_permissions,
}
use stricklysoft_core.Auth.Permission.RoundTrip.{
  IsWellFormed, global_scope, parse-format_permission, format-parse_permission,
}
use stricklysoft_core.Auth.PermissionSet.{new_permission_set, match, permissions}
use stricklysoft_core.Auth.PermissionSet.Refinement.{match-new_permission_set}
use stricklysoft_core.Auth.Claims.{
  add_perm, add_all, claims_to_permissions, default_role_permissions,
}
use stricklysoft_core.Auth.Claims.Grants.{granted, claims_to_permissions-granted}
use stricklysoft_core.Auth.CallChain.{CallerInfo, CallChain, append_callers, append_callers_lem}
use stricklysoft_core.Auth.TokenCache.{TokenCache, new_token_cache, get, put, evict_expired}
use stricklysoft_core.Auth.TokenCache.Bounds.{IsBounded, put-IsBounded}
use stricklysoft_core.Auth.TokenCache.Expiry.{get-put_live, get-put_expired}
use stricklysoft_core.Value.{string, array, no_elements, element, Claims}

abbrev perm : String → String → String → Permission
perm resource action scope = record { resource = resource; action = action; scope = scope }

abbrev grants : List Permission
grants = perm "docs" "read" "" ∷ perm "*" "run" "prod" ∷ perm "docs" "read" "" ∷ []

match-new_permission_set_example :
    match (new_permission_set grants) "agents" "run" "prod"
    ≡ any (λ p. matches p "agents" "run" "prod") grants
match-new_permission_set_example = match-new_permission_set grants "agents" "run" "prod"

grants_listed :
    permissions (new_permission_set grants) ≡ perm "docs" "read" "" ∷ perm "*" "run" "prod" ∷ []
unfolding permissions new_permission_set
grants_listed = refl

abbrev deploy : Permission
deploy = perm "deployments" "write" "*"

deploy-IsWellFormed : IsWellFormed deploy
deploy-IsWellFormed = record {
  resource_given = ground (arith, eq_iff "deployments" "");
  action_given = ground (arith, eq_iff "write" "");
  resource_plain = ground arith;
  action_plain = ground arith;
}

parse-format_permission_example :
    (parse_permission_string (format_permission deploy) ≡ ok (global_scope deploy))
    × (matches (global_scope deploy) "deployments" "write" "prod"
        ≡ matches deploy "deployments" "write" "prod")
parse-format_permission_example =
    parse-format_permission deploy "deployments" "write" "prod" deploy-IsWellFormed

parse_colons : parse_permission_string "docs:read:a:b" ≡ ok (perm "docs" "read" "a:b")
unfolding parse_permission_string split_n cut
parse_colons = refl

format-parse_permission_example : format_permission (perm "docs" "read" "a:b") ≡ "docs:read:a:b"
format-parse_permission_example =
    format-parse_permission "docs:read:a:b" (perm "docs" "read" "a:b") parse_colons
      (ground (arith, eq_iff "a:b" "*"))

abbrev token_claims : Claims
token_claims =
    ("permissions", array (element (string "docs:read") (element (string "bad") no_elements)))
    ∷ ("roles", array (element (string "viewer") no_elements))
    ∷ ("scope", string "agents:read docs:read")
    ∷ []

claims_to_permissions-granted_example :
    claims_to_permissions token_claims default_role_permissions
    ≡ nub perm_eq (granted token_claims default_role_permissions)
claims_to_permissions-granted_example =
    claims_to_permissions-granted token_claims default_role_permissions

claims_granted :
    claims_to_permissions token_claims default_role_permissions
    ≡ perm "docs" "read" "" ∷ perm "*" "read" "" ∷ perm "agents" "read" "" ∷ []
unfolding claims_to_permissions add_perm add_all parse_permission_string split_n cut lookup
    parse_scope_permissions
claims_granted = refl

abbrev caller : CallerInfo
caller = record { service_name = "gateway"; identity_id = "u1"; identity_type = "user" }

abbrev chain : CallChain
chain = record { original_id = "u1"; original_type = "user"; callers = caller ∷ [] }

append_callers_lem_example :
    ((append_callers chain (caller ∷ caller ∷ [])).callers
      ≡ drop
          (length (chain.callers ++ caller ∷ caller ∷ []) - 32)
          (chain.callers ++ caller ∷ caller ∷ []))
    × (length (append_callers chain (caller ∷ caller ∷ [])).callers ≤ 32)
    × ((append_callers chain (caller ∷ caller ∷ [])).original_id ≡ "u1")
    × ((append_callers chain (caller ∷ caller ∷ [])).original_type ≡ "user")
append_callers_lem_example = append_callers_lem chain (caller ∷ caller ∷ []) (omega arith)

-- A cache of one entry, full.
abbrev full : TokenCache ℕ
full = record {
  entries = ("aa", record { identity = 7; expires_at = 50 }) ∷ [];
  max_size = 1;
  ttl = 300;
}

full-IsBounded : IsBounded full
full-IsBounded = record { within = omega arith; hashes = (refl, tt) }

put-IsBounded_example :
    IsBounded (put full "bb" 8 200 100 100 100)
    × IsBounded (evict_expired full 100)
    × IsBounded (new_token_cache {I = ℕ} 300 1)
put-IsBounded_example =
    put-IsBounded full "bb" 8 200 100 100 100 full-IsBounded (omega arith)
      (ground (arith, eq_iff "bb" ""))

get-put_live_example :
    get (put full "bb" 8 200 100 100 100) "bb" 150
    ≡ (if leb 150 (100 + 300) && leb 150 (200 + (100 - 100)) then some 8 else none)
get-put_live_example =
    get-put_live full "bb" 8 200 100 100 100 150 (omega arith) (omega arith) (omega arith)

-- The token expired at 90, and at 390 the cache still answers.
get-put_expired_example : get (put full "bb" 8 90 100 100 100) "bb" 390 ≡ some 8
get-put_expired_example =
    get-put_expired full "bb" 8 90 100 100 100 390 (omega arith) (omega arith) (omega arith)

get_old : get (put (record full { max_size = 2 }) "bb" 8 200 100 100 100) "aa" 50 ≡ some 7
unfolding get put insert lookup
get_old = refl
