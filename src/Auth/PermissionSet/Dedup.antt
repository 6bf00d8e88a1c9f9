-- ===== src/Auth/PermissionSet/Dedup.antt =====
-- `Permissions` and `Has`: what the set holds.
use stricklysoft_core.Prelude.{
  ◌≡◌, refl, ap, sym, ◌∙◌, Bool, true, false, not, ◌&&◌, ◌||◌, String, List, [], ◌∷◌, ◌++◌, arith,
  any, nub, fresh, fresh-nub, any-add_key, any_of_mem, Bool-cases, inl, inr,
}
use mathlib.Core.List.{append_assoc, append-nil}
use stricklysoft_core.Auth.Permission.{Permission, perm_eq}
use stricklysoft_core.Auth.PermissionSet.{
  PermissionSet, empty, is_wildcard, add_unseen, add_perms, new_permission_set, has, permissions,
}
use stricklysoft_core.Auth.PermissionSet.Refinement.{perm_eq_sound, absorb, swap_or}

all-add_unseen : (ps : PermissionSet) (p : Permission) → (add_unseen ps p).all ≡ ps.all ++ p ∷ []
unfolding add_unseen
all-add_unseen ps p = ground arith

all-add_perms :
    (ps : PermissionSet) (seen perms : List Permission)
    → (add_perms ps seen perms).all ≡ ps.all ++ fresh perm_eq seen perms
unfolding add_perms
all-add_perms ps seen [] = sym (append-nil ps.all)
all-add_perms ps seen (p ∷ perms) = elim (Bool-cases (any (perm_eq p) seen)) [
  | inl old ↦ rw old (all-add_perms ps seen perms)
  | inr new ↦ rw new (
      all-add_perms (add_unseen ps p) (p ∷ seen) perms
      ∙ ap (λ l. l ++ fresh perm_eq (p ∷ seen) perms) (all-add_unseen ps p)
      ∙ append_assoc ps.all (p ∷ []) (fresh perm_eq (p ∷ seen) perms))
]

-- The set lists the first occurrence of each permission that it was made of, in their order.
permissions-new_permission_set :
    (perms : List Permission) → permissions (new_permission_set perms) ≡ nub perm_eq perms
unfolding permissions new_permission_set
permissions-new_permission_set perms =
    all-add_perms empty [] perms ∙ fresh-nub perm_eq perm_eq_sound perms

not_added : (b h : Bool) → h ≡ ((b && false) || h)
not_added b h = ground arith

added : (b h : Bool) → (b || h) ≡ ((b && true) || h)
added b h = ground arith

module _ (resource action scope : String) where
  abbrev asked : Permission
  asked = record { resource = resource; action = action; scope = scope }

  abbrev is_exact_at : Permission → Bool
  is_exact_at p = perm_eq asked p && not (is_wildcard p)

  has-add_unseen :
      (ps : PermissionSet) (p : Permission)
      → has (add_unseen ps p) resource action scope
        ≡ (is_exact_at p || has ps resource action scope)
  unfolding has add_unseen
  has-add_unseen ps p = elim (Bool-cases (is_wildcard p)) [
    | inl w ↦ rw w (not_added (perm_eq asked p) (has ps resource action scope))
    | inr e ↦ rw e (
        rw (any-add_key perm_eq perm_eq_sound (perm_eq asked) p ps.exact)
          (added (perm_eq asked p) (has ps resource action scope)))
  ]

  has-add_perms :
      (ps : PermissionSet) (seen perms : List Permission)
      → has ps resource action scope ≡ any is_exact_at seen
      → has (add_perms ps seen perms) resource action scope
        ≡ (has ps resource action scope || any is_exact_at perms)
  unfolding add_perms
  has-add_perms ps seen [] h = ground arith
  has-add_perms ps seen (p ∷ perms) h = elim (Bool-cases (any (perm_eq p) seen)) [
    | inl old ↦ rw old (
        has-add_perms ps seen perms h
        ∙ absorb _ _ _ (λ t. h ∙ any_of_mem perm_eq perm_eq_sound is_exact_at p seen old t))
    | inr new ↦ rw new (
        has-add_perms (add_unseen ps p) (p ∷ seen) perms
          (has-add_unseen ps p ∙ ap (λ b. is_exact_at p || b) h)
        ∙ ap (λ b. b || any is_exact_at perms) (has-add_unseen ps p)
        ∙ swap_or (has ps resource action scope) (is_exact_at p) (any is_exact_at perms))
  ]

-- Has finds exactly the permissions with no wildcard that the set was made of, field by field.
has-new_permission_set :
    (perms : List Permission) (resource action scope : String)
    → has (new_permission_set perms) resource action scope
      ≡ any
          (λ p.
            perm_eq (record { resource = resource; action = action; scope = scope }) p
            && not (is_wildcard p))
          perms
has-new_permission_set perms resource action scope =
    unfold new_permission_set has in has-add_perms resource action scope empty [] perms refl
