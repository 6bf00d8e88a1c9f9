-- ===== src/Auth/PermissionSet.antt =====
-- pkg/auth/rbac.go: `PermissionSet`. A Go map to `struct{}` is the list of its keys.
pub mod Dedup
pub mod Refinement
use stricklysoft_core.Prelude.{
  ℕ, Bool, true, ◌&&◌, ◌||◌, String, List, [], ◌∷◌, ◌++◌, ◌==◌, if◌then◌else◌, any, length, add_key,
}
use stricklysoft_core.Auth.Permission.{Permission, perm_eq, matches}

-- `resourceActionKey`
pub record ResourceActionKey : Type 0 where
  pub resource : String
  pub action : String

abbrev pub key_eq : ResourceActionKey → ResourceActionKey → Bool
key_eq k l = k.resource == l.resource && k.action == l.action

pub record PermissionSet : Type 0 where
  pub exact : List Permission
  pub any_scope : List ResourceActionKey
  pub wildcards : List Permission
  pub all : List Permission

abbrev pub empty : PermissionSet
empty = record { exact = []; any_scope = []; wildcards = []; all = [] }

abbrev pub is_wildcard : Permission → Bool
is_wildcard p = p.resource == "*" || p.action == "*" || p.scope == "*"

abbrev pub key_of : Permission → ResourceActionKey
key_of p = record { resource = p.resource; action = p.action }

-- What the body of the loop in `NewPermissionSet` does with a permission that is not yet seen.
unfoldable pub add_unseen : PermissionSet → Permission → PermissionSet
add_unseen ps p =
    if is_wildcard p
    then record ps { all = ps.all ++ p ∷ []; wildcards = ps.wildcards ++ p ∷ [] }
    else record ps {
      all = ps.all ++ p ∷ [];
      exact = add_key perm_eq p ps.exact;
      any_scope = add_key key_eq (key_of p) ps.any_scope;
    }

-- The loop, with the keys of `seen`.
unfoldable pub add_perms : PermissionSet → List Permission → List Permission → PermissionSet
add_perms ps seen [] = ps
add_perms ps seen (p ∷ perms) =
    let skipped = add_perms ps seen perms in
    let added = add_perms (add_unseen ps p) (p ∷ seen) perms in
    if any (perm_eq p) seen then skipped else added

-- `NewPermissionSet`
unfoldable pub new_permission_set : List Permission → PermissionSet
unfolding add_perms add_unseen
new_permission_set perms = add_perms empty [] perms

-- `Has`
unfoldable pub has : PermissionSet → String → String → String → Bool
has ps resource action scope =
    any (perm_eq (record { resource = resource; action = action; scope = scope })) ps.exact

-- `Match`
unfoldable pub match : PermissionSet → String → String → String → Bool
unfolding has matches
match ps resource action scope =
    let slow_path = any (λ p. matches p resource action scope) ps.wildcards in
    if has ps resource action scope
    then true
    else if scope == "" || scope == "*"
    then (if any (key_eq (record { resource = resource; action = action })) ps.any_scope
        then true
        else slow_path)
    else (if any (perm_eq (record { resource = resource; action = action; scope = "" })) ps.exact
        then true
        else slow_path)

-- `Permissions`, a copy of the slice
unfoldable pub permissions : PermissionSet → List Permission
permissions ps = ps.all

-- `Len`
unfoldable pub len : PermissionSet → ℕ
len ps = length ps.all
