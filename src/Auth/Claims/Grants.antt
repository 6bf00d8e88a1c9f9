-- ===== src/Auth/Claims/Grants.antt =====
-- `ClaimsToPermissions` against an independent description: the three sources one after the other.
use stricklysoft_core.Prelude.{
  ◌≡◌, refl, ap, sym, ◌∙◌, true, false, String, Option, none, some, List, [], ◌∷◌, ◌++◌, lookup,
  any, nub, fresh, fresh-nub, Bool-cases, inl, inr,
}
use mathlib.Core.List.{append_assoc, append-nil}
use stricklysoft_core.Value.{Value, as_string, Claims}
use stricklysoft_core.Errors.Results.{Result, ok, err}
use stricklysoft_core.Auth.Permission.{
  Permission, perm_eq, parse_permission_string, parse_scope_permissions,
}
use stricklysoft_core.Auth.PermissionSet.Refinement.{perm_eq_sound}
use stricklysoft_core.Auth.Claims.{
  RolePermissionMap, Collector, add_perm, add_all, add_direct, add_roles, add_scopes, entries_at,
  text_at, collect, claims_to_permissions,
}

-- The permission that an entry of "permissions" grants, if it is a text that parses.
abbrev pub direct_grant : Value → List Permission
direct_grant entry = elim (as_string entry) [
  | none ↦ []
  | some s ↦ elim (parse_permission_string s) [ ok p ↦ p ∷ [] | err _ ↦ [] ]
]

-- The permissions of the role that an entry of "roles" names, if it names one.
abbrev pub role_grant : RolePermissionMap → Value → List Permission
role_grant role_map entry = elim (as_string entry) [
  | none ↦ []
  | some role ↦ elim (lookup role role_map) [ none ↦ [] | some perms ↦ perms ]
]

abbrev pub scope_grant : Option String → List Permission
scope_grant none = []
scope_grant (some scope) = parse_scope_permissions scope

abbrev pub grants_of : (Value → List Permission) → List Value → List Permission
grants_of grant [] = []
grants_of grant (entry ∷ entries) = grant entry ++ grants_of grant entries

add_all-append :
    (c : Collector) (xs ys : List Permission) → add_all c (xs ++ ys) ≡ add_all (add_all c xs) ys
unfolding add_all
add_all-append c [] ys = refl
add_all-append c (x ∷ xs) ys = add_all-append (add_perm c x) xs ys

add_perm_old : (c : Collector) (p : Permission) → any (perm_eq p) c.seen ≡ true → add_perm c p ≡ c
unfolding add_perm
add_perm_old c p old = rw old

add_perm_new :
    (c : Collector) (p : Permission)
    → any (perm_eq p) c.seen ≡ false
    → add_perm c p ≡ record { seen = p ∷ c.seen; result = c.result ++ p ∷ [] }
unfolding add_perm
add_perm_new c p new = rw new

result-add_all :
    (c : Collector) (perms : List Permission)
    → (add_all c perms).result ≡ c.result ++ fresh perm_eq c.seen perms
unfolding add_all
result-add_all c [] = sym (append-nil c.result)
result-add_all c (p ∷ perms) = elim (Bool-cases (any (perm_eq p) c.seen)) [
  | inl old ↦
      rw old (ap (λ d. (add_all d perms).result) (add_perm_old c p old) ∙ result-add_all c perms)
  | inr new ↦ rw new (
      ap (λ d. (add_all d perms).result) (add_perm_new c p new)
      ∙ result-add_all (record { seen = p ∷ c.seen; result = c.result ++ p ∷ [] }) perms
      ∙ append_assoc c.result (p ∷ []) (fresh perm_eq (p ∷ c.seen) perms))
]

add_one_direct :
    (c : Collector) (o : Option String)
    → elim o [
      | none ↦ c
      | some s ↦ elim (parse_permission_string s) [ ok p ↦ add_perm c p | err _ ↦ c ]
    ]
      ≡ add_all c (elim o [
        | none ↦ []
        | some s ↦ elim (parse_permission_string s) [ ok p ↦ p ∷ [] | err _ ↦ [] ]
      ])
unfolding add_all
add_one_direct c none = refl
add_one_direct c (some s) = go (parse_permission_string s)
  where
    go :
        (r : Result Permission)
        → elim r [ ok p ↦ add_perm c p | err _ ↦ c ]
          ≡ add_all c (elim r [ ok p ↦ p ∷ [] | err _ ↦ [] ])
    go (ok p) = refl
    go (err e) = refl

add_one_role :
    (role_map : RolePermissionMap) (c : Collector) (o : Option String)
    → elim o [
      | none ↦ c
      | some role ↦ elim (lookup role role_map) [ none ↦ c | some perms ↦ add_all c perms ]
    ]
      ≡ add_all c (elim o [
        | none ↦ []
        | some role ↦ elim (lookup role role_map) [ none ↦ [] | some perms ↦ perms ]
      ])
unfolding add_all
add_one_role role_map c none = refl
add_one_role role_map c (some role) = go (lookup role role_map)
  where
    go :
        (o : Option (List Permission))
        → elim o [ none ↦ c | some perms ↦ add_all c perms ]
          ≡ add_all c (elim o [ none ↦ [] | some perms ↦ perms ])
    go none = refl
    go (some perms) = refl

add_direct-grants :
    (c : Collector) (entries : List Value)
    → add_direct c entries ≡ add_all c (grants_of direct_grant entries)
unfolding add_direct
add_direct-grants c [] = unfold add_all in refl
add_direct-grants c (entry ∷ entries) =
    ap (λ d. add_direct d entries) (add_one_direct c (as_string entry))
    ∙ add_direct-grants (add_all c (direct_grant entry)) entries
    ∙ sym (add_all-append c (direct_grant entry) (grants_of direct_grant entries))

add_roles-grants :
    (role_map : RolePermissionMap) (c : Collector) (entries : List Value)
    → add_roles role_map c entries ≡ add_all c (grants_of (role_grant role_map) entries)
unfolding add_roles
add_roles-grants role_map c [] = unfold add_all in refl
add_roles-grants role_map c (entry ∷ entries) =
    ap (λ d. add_roles role_map d entries) (add_one_role role_map c (as_string entry))
    ∙ add_roles-grants role_map (add_all c (role_grant role_map entry)) entries
    ∙ sym (add_all-append c (role_grant role_map entry) (grants_of (role_grant role_map) entries))

add_scopes-grants : (c : Collector) (o : Option String) → add_scopes c o ≡ add_all c (scope_grant o)
unfolding add_scopes
add_scopes-grants c none = unfold add_all in refl
add_scopes-grants c (some scope) = refl

-- All that the claims grant, in the order of the three sources.
abbrev pub granted : Claims → RolePermissionMap → List Permission
granted claims role_map =
    (grants_of direct_grant (entries_at "permissions" claims)
      ++ grants_of (role_grant role_map) (entries_at "roles" claims))
    ++ scope_grant (text_at "scope" claims)

collect-granted :
    (claims : Claims) (role_map : RolePermissionMap)
    → collect claims role_map
      ≡ add_all (record { seen = []; result = [] }) (granted claims role_map)
unfolding collect
collect-granted claims role_map =
    add_scopes-grants (add_roles role_map (add_direct c₀ es) rs) (text_at "scope" claims)
    ∙ ap (λ d. add_all d (scope_grant (text_at "scope" claims)))
        (add_roles-grants role_map (add_direct c₀ es) rs
          ∙ ap (λ d. add_all d (grants_of (role_grant role_map) rs)) (add_direct-grants c₀ es)
          ∙ sym
              (add_all-append c₀ (grants_of direct_grant es) (grants_of (role_grant role_map) rs)))
    ∙ sym (
        add_all-append c₀ (grants_of direct_grant es ++ grants_of (role_grant role_map) rs)
          (scope_grant (text_at "scope" claims)))
  where
    c₀ : Collector
    c₀ = record { seen = []; result = [] }

    es : List Value
    es = entries_at "permissions" claims

    rs : List Value
    rs = entries_at "roles" claims

-- The permissions of a token are the first occurrences of what its claims grant: the entries of
-- "permissions" that are texts and parse, then the permissions of the roles of the map that "roles"
-- names, then the tokens of "scope" that parse. Nothing else is granted, nothing is lost, and
-- entries of another type or form are skipped.
pub claims_to_permissions-granted :
    (claims : Claims) (role_map : RolePermissionMap)
    → claims_to_permissions claims role_map ≡ nub perm_eq (granted claims role_map)
unfolding claims_to_permissions
claims_to_permissions-granted [] role_map = unfold lookup in refl
claims_to_permissions-granted (claim ∷ claims) role_map =
    ap (λ (c : Collector). c.result) (collect-granted (claim ∷ claims) role_map)
    ∙ result-add_all (record { seen = []; result = [] }) (granted (claim ∷ claims) role_map)
    ∙ fresh-nub perm_eq perm_eq_sound (granted (claim ∷ claims) role_map)
