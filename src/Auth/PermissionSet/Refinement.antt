-- ===== src/Auth/PermissionSet/Refinement.antt =====
-- `Match` with its indexes, beside a linear scan of the permissions that the set was made of.
use stricklysoft_core.Prelude.{
  ◌≡◌, ap, ◌∙◌, Bool, true, false, ◌||◌, String, List, [], ◌∷◌, ◌==◌, eq_iff, arith, any, any-snoc,
  any_of_mem, any-add_key, Bool-cases, inl, inr, if◌then◌else◌,
}
use stricklysoft_core.Auth.Permission.{Permission, perm_eq, matches}
use stricklysoft_core.Auth.PermissionSet.{
  ResourceActionKey, key_eq, key_of, PermissionSet, empty, is_wildcard, add_unseen, add_perms,
  new_permission_set, has, match,
}

pub perm_eq_sound : (p q : Permission) → perm_eq p q ≡ true → p ≡ q
perm_eq_sound p q h =
    ground (arith, eq_iff p.resource q.resource, eq_iff p.action q.action, eq_iff p.scope q.scope)

key_eq_sound : (k l : ResourceActionKey) → key_eq k l ≡ true → k ≡ l
key_eq_sound k l h = ground (arith, eq_iff k.resource l.resource, eq_iff k.action l.action)

scan_last :
    (m h u a g w : Bool)
    → (if h
        then true
        else if u
        then (if a then true else (m || w))
        else (if g then true else (m || w)))
      ≡ (m || (if h then true else if u then (if a then true else w) else (if g then true else w)))
scan_last m h u a g w = ground arith

index_first :
    (p k g h a u e w : Bool)
    → (if (p || h)
        then true
        else if u
        then (if (k || a) then true else w)
        else (if (g || e) then true else w))
      ≡ ((p || (if u then k else g))
          || (if h then true else if u then (if a then true else w) else (if e then true else w)))
index_first p k g h a u e w = ground arith

pub absorb : (s m r : Bool) → (m ≡ true → s ≡ true) → (s || r) ≡ (s || (m || r))
absorb s m r h = ground arith

pub swap_or : (s m r : Bool) → ((m || s) || r) ≡ (s || (m || r))
swap_or s m r = ground arith

match-empty : (resource action scope : String) → match empty resource action scope ≡ false
unfolding match has
match-empty resource action scope = ground arith

module _ (resource action scope : String) where
  -- The three indexes as one scan of what they hold.
  abbrev at_scope : String → Permission
  at_scope s = record { resource = resource; action = action; scope = s }

  abbrev ra_key : ResourceActionKey
  ra_key = record { resource = resource; action = action }

  abbrev unscoped : Bool
  unscoped = scope == "" || scope == "*"

  -- For a permission with no wildcard, to match is to be found by one of the two fast paths.
  matches-exact :
      (p : Permission)
      → is_wildcard p ≡ false
      → matches p resource action scope ≡ (
          perm_eq (at_scope scope) p
          || (if unscoped then key_eq ra_key (key_of p) else perm_eq (at_scope "") p))
  unfolding matches
  matches-exact p h = ground (
    arith,
    eq_iff p.resource resource,
    eq_iff resource p.resource,
    eq_iff p.action action,
    eq_iff action p.action,
    eq_iff p.scope scope,
    eq_iff scope p.scope,
    eq_iff p.scope "",
    eq_iff "" p.scope,
    eq_iff p.scope "*",
    eq_iff scope "",
    eq_iff scope "*",
  )

  match-add_unseen :
      (ps : PermissionSet) (p : Permission)
      → match (add_unseen ps p) resource action scope
        ≡ (matches p resource action scope || match ps resource action scope)
  unfolding match has add_unseen
  match-add_unseen ps p = elim (Bool-cases (is_wildcard p)) [
    | inl w ↦ rw w (
        rw (any-snoc (λ q. matches q resource action scope) ps.wildcards p)
          (scan_last _ _ unscoped _ _ _))
    | inr e ↦ rw e (
        rw
          (
            matches-exact p e,
            any-add_key perm_eq perm_eq_sound (perm_eq (at_scope scope)) p ps.exact,
            any-add_key perm_eq perm_eq_sound (perm_eq (at_scope "")) p ps.exact,
            any-add_key key_eq key_eq_sound (key_eq ra_key) (key_of p) ps.any_scope,
          )
          (index_first _ _ _ _ _ unscoped _ _))
  ]

  -- The loop: the set answers for what it held and for every permission of the rest, as long as it
  -- answers for all that is seen.
  match-add_perms :
      (ps : PermissionSet) (seen perms : List Permission)
      → match ps resource action scope ≡ any (λ q. matches q resource action scope) seen
      → match (add_perms ps seen perms) resource action scope
        ≡ (match ps resource action scope || any (λ q. matches q resource action scope) perms)
  unfolding add_perms
  match-add_perms ps seen [] h = ground arith
  match-add_perms ps seen (p ∷ perms) h = elim (Bool-cases (any (perm_eq p) seen)) [
    | inl old ↦ rw old (
        match-add_perms ps seen perms h
        ∙ absorb _ _ _ (λ t.
          h ∙ any_of_mem perm_eq perm_eq_sound (λ q. matches q resource action scope) p seen old t))
    | inr new ↦ rw new (
        match-add_perms (add_unseen ps p) (p ∷ seen) perms
          (match-add_unseen ps p ∙ ap (λ b. matches p resource action scope || b) h)
        ∙ ap (λ b. b || any (λ q. matches q resource action scope) perms) (match-add_unseen ps p)
        ∙ swap_or (match ps resource action scope) (matches p resource action scope)
            (any (λ q. matches q resource action scope) perms))
  ]

-- The set grants a resource, an action and a scope exactly when one of the permissions that it was
-- made of matches them: the indexes, the deduplication and the split into exact and wildcard
-- permissions change no answer, whatever the three texts, wildcards included.
pub match-new_permission_set :
    (perms : List Permission) (resource action scope : String)
    → match (new_permission_set perms) resource action scope
      ≡ any (λ p. matches p resource action scope) perms
match-new_permission_set perms resource action scope =
    unfold new_permission_set in
    match-add_perms resource action scope empty [] perms (match-empty resource action scope)
    ∙ ap (λ b. b || any (λ q. matches q resource action scope) perms)
        (match-empty resource action scope)
