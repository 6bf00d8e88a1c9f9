-- ===== src/Auth/Claims.antt =====
-- pkg/auth/rbac.go: permissions from token claims, and the platform's roles.
pub mod Grants
use stricklysoft_core.Prelude.{
  Bool, String, Option, none, some, List, [], ◌∷◌, ◌++◌, Dict, lookup, insert, any, if◌then◌else◌,
}
use stricklysoft_core.Value.{Value, as_string, as_array, Claims}
use stricklysoft_core.Errors.Results.{ok, err}
use stricklysoft_core.Auth.Permission.{
  Permission, perm_eq, matches, has_permission, parse_permission_string, parse_scope_permissions,
}

-- `RolePermissionMap`
abbrev pub RolePermissionMap : Type 0
RolePermissionMap = Dict (List Permission)

abbrev pub unscoped : String → String → Permission
unscoped resource action = record { resource = resource; action = action; scope = "" }

-- `DefaultRolePermissions`
abbrev pub default_role_permissions : RolePermissionMap
default_role_permissions =
    ("admin", unscoped "*" "*" ∷ [])
    ∷ ("operator", unscoped "agents" "*" ∷ unscoped "deployments" "*" ∷ unscoped "logs" "read" ∷ [])
    ∷ (
      "developer",
      unscoped "agents" "read"
          ∷ unscoped "agents" "execute"
          ∷ unscoped "logs" "read"
          ∷ unscoped "deployments" "read"
          ∷ [],
    )
    ∷ ("viewer", unscoped "*" "read" ∷ [])
    ∷ []

-- The variables `seen` and `result` that the closure `addPerm` captures.
pub record Collector : Type 0 where
  pub seen : List Permission
  pub result : List Permission

-- `addPerm`
unfoldable pub add_perm : Collector → Permission → Collector
add_perm c p =
    if any (perm_eq p) c.seen then c else record { seen = p ∷ c.seen; result = c.result ++ p ∷ [] }

-- `for _, p := range perms { addPerm(p) }`
unfoldable pub add_all : Collector → List Permission → Collector
add_all c [] = c
add_all c (p ∷ perms) = add_all (add_perm c p) perms

-- The loop over the "permissions" claim: what is no text, or does not parse, is skipped.
add_direct : Collector → List Value → Collector
add_direct c [] = c
add_direct c (entry ∷ entries) =
    add_direct
      (elim (as_string entry) [
        | none ↦ c
        | some s ↦ elim (parse_permission_string s) [ ok p ↦ add_perm c p | err _ ↦ c ]
      ])
      entries

-- The loop over the "roles" claim: what is no text, or no role of the map, is skipped.
add_roles : RolePermissionMap → Collector → List Value → Collector
add_roles role_map c [] = c
add_roles role_map c (entry ∷ entries) =
    add_roles role_map
      (elim (as_string entry) [
        | none ↦ c
        | some role ↦ elim (lookup role role_map) [ none ↦ c | some perms ↦ add_all c perms ]
      ])
      entries

-- `raw, ok := claims[key]` and the assertion to a slice; no loop where one of them fails.
abbrev entries_at : String → Claims → List Value
entries_at key claims = elim (lookup key claims) [
  | none ↦ []
  | some raw ↦ elim (as_array raw) [ none ↦ [] | some entries ↦ entries ]
]

-- The same with the assertion to a text.
abbrev text_at : String → Claims → Option String
text_at key claims = elim (lookup key claims) [ none ↦ none | some raw ↦ as_string raw ]

add_scopes : Collector → Option String → Collector
add_scopes c none = c
add_scopes c (some scope) = add_all c (parse_scope_permissions scope)

collect : Claims → RolePermissionMap → Collector
unfolding add_direct add_roles add_scopes
collect claims role_map =
    let c₀ : Collector = record { seen = []; result = [] } in
    let c₁ = add_direct c₀ (entries_at "permissions" claims) in
    let c₂ = add_roles role_map c₁ (entries_at "roles" claims) in
    add_scopes c₂ (text_at "scope" claims)

-- `ClaimsToPermissions`
unfoldable pub claims_to_permissions : Claims → RolePermissionMap → List Permission
unfolding collect
claims_to_permissions [] role_map = []
claims_to_permissions (claim ∷ claims) role_map = (collect (claim ∷ claims) role_map).result

-- `DefaultClaimsToPermissions`
unfoldable pub default_claims_to_permissions : Claims → List Permission
unfolding claims_to_permissions
default_claims_to_permissions claims = claims_to_permissions claims default_role_permissions

-- `Role`
pub record Role : Type 0 where
  pub name : String
  pub description : String
  pub permissions : List Permission

-- `Role.HasPermission`
unfoldable pub role_has_permission : Role → String → String → Bool
role_has_permission r resource action = has_permission r.permissions resource action

-- `Role.HasScopedPermission`
unfoldable pub role_has_scoped_permission : Role → String → String → String → Bool
role_has_scoped_permission r resource action scope =
    any (λ p. matches p resource action scope) r.permissions

-- `StandardRoles`
abbrev pub standard_roles : List Role
standard_roles =
    record {
      name = "admin";
      description =
          "Full unrestricted access to all resources, actions, and scopes. Intended for platform administrators.";
      permissions = unscoped "*" "*" ∷ [];
    }
    ∷ record {
      name = "operator";
      description =
          "Operational access to manage agents, deployments, and infrastructure with read access to logs. Intended for SRE and operations teams.";
      permissions =
          unscoped "agents" "*" ∷ unscoped "deployments" "*" ∷ unscoped "logs" "read" ∷ [];
    }
    ∷ record {
      name = "viewer";
      description =
          "Read-only access to all resources. Intended for auditors, stakeholders, and read-only integrations.";
      permissions = unscoped "*" "read" ∷ [];
    }
    ∷ []

index_roles : Dict Role → List Role → Dict Role
index_roles m [] = m
index_roles m (r ∷ roles) = index_roles (insert r.name r m) roles

-- `StandardRoleMap`
unfoldable pub standard_role_map : Dict Role
unfolding index_roles insert
standard_role_map = index_roles [] standard_roles
