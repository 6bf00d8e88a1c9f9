-- ===== src/Auth/Permission.antt =====
-- pkg/auth/identity.go: `Permission`, its match and its text. pkg/auth/rbac.go: the parsers.
pub mod RoundTrip
use Prim.Native.String.{◌++◌}
use stricklysoft_core.Prelude.{
  Bool, ◌&&◌, ◌||◌, String, Option, none, some, List, [], ◌∷◌, ◌≡◌, refl, ◌==◌, if◌then◌else◌, any,
  split_n, cut, fields, quote,
}
use stricklysoft_core.Errors.{plain}
use stricklysoft_core.Errors.Results.{Result, ok, err}

pub record Permission : Type 0 where
  pub resource : String
  pub action : String
  pub scope : String

-- Go's `==` on two permissions, by which a map of them finds its keys.
abbrev pub perm_eq : Permission → Permission → Bool
perm_eq p q = p.resource == q.resource && p.action == q.action && p.scope == q.scope

-- `Match`
unfoldable pub matches : Permission → String → String → String → Bool
matches p resource action scope =
    let resource_match = p.resource == "*" || p.resource == resource in
    let action_match = p.action == "*" || p.action == action in
    let scope_match =
      p.scope == "" || p.scope == "*" || scope == "" || scope == "*" || p.scope == scope in
    resource_match && action_match && scope_match

-- `hasPermission`
unfoldable pub has_permission : List Permission → String → String → Bool
unfolding matches
has_permission permissions resource action = any (λ p. matches p resource action "") permissions

-- `String`, and `FormatPermission` of rbac.go
unfoldable pub format_permission : Permission → String
format_permission p =
    if p.scope == "" || p.scope == "*"
    then p.resource ++ (":" ++ p.action)
    else p.resource ++ (":" ++ (p.action ++ (":" ++ p.scope)))

-- The tail of the function, where the third part is there or not.
scoped_permission : String → String → List String → Result Permission
scoped_permission resource action (scope ∷ []) =
    if scope == ""
    then err (
        plain
          "auth: invalid permission string: empty scope (use two-part format for global permissions)")
    else ok (record { resource = resource; action = action; scope = scope })
scoped_permission resource action _ =
    ok (record { resource = resource; action = action; scope = "" })

parse_parts : String → List String → Result Permission
unfolding scoped_permission
parse_parts s (resource ∷ action ∷ rest) =
    if resource == ""
    then err (plain "auth: invalid permission string: empty resource")
    else if action == ""
    then err (plain "auth: invalid permission string: empty action")
    else scoped_permission resource action rest
parse_parts s _ =
    err (plain ("auth: invalid permission string " ++ quote s ++ ": missing colon separator"))

-- `ParsePermissionString`
unfoldable pub parse_permission_string : String → Result Permission
unfolding parse_parts
parse_permission_string s = parse_parts s (split_n ":" 3 s)

-- The loop of `ParseScopePermissions`: tokens that do not parse are skipped.
parse_tokens : List String → List Permission
parse_tokens [] = []
parse_tokens (token ∷ tokens) =
    let rest = parse_tokens tokens in
    elim (parse_permission_string token) [ ok p ↦ p ∷ rest | err _ ↦ rest ]

-- `ParseScopePermissions`; the nil slice and the empty slice are both `[]`
unfoldable pub parse_scope_permissions : String → List Permission
unfolding parse_tokens parse_permission_string fields
parse_scope_permissions scope = if scope == "" then [] else parse_tokens (fields scope)

parse_scoped :
    parse_scope_permissions "agents:read bad deployments:write:production :x"
    ≡ record { resource = "agents"; action = "read"; scope = "" }
      ∷ record { resource = "deployments"; action = "write"; scope = "production" }
      ∷ []
unfolding parse_scope_permissions split_n cut
parse_scoped = refl
