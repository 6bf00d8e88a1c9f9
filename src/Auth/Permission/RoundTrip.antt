-- ===== src/Auth/Permission/RoundTrip.antt =====
-- `ParsePermissionString` against `FormatPermission`, both ways.
use Prim.Native.String.{◌++◌}
use stricklysoft_core.Prelude.{
  ◌≡◌, ◌≢◌, sym, ap, ◌∙◌, Bool, true, false, ◌||◌, String, Option, none, some, [], ◌∷◌, arith, ◌==◌,
  eq_iff, if◌then◌else◌, Lacks, colon-append, cut, cut-Lacks, cut-append, cut-joined, joined,
  split_n, Bool-cases, inl, inr,
}
use stricklysoft_core.Errors.Results.{ok}
use stricklysoft_core.Auth.Permission.{
  Permission, matches, format_permission, parse_parts, parse_permission_string,
}

-- What a parsed permission is: the resource and the action are not empty and have no colon.
pub record IsWellFormed (p : Permission) : Type 0 where
  pub resource_given : p.resource ≢ ""
  pub action_given : p.action ≢ ""
  pub resource_plain : Lacks ":" p.resource
  pub action_plain : Lacks ":" p.action

module _ (r a : String) (hr : Lacks ":" r) (ha : Lacks ":" a) where
  split_two : split_n ":" 3 (r ++ (":" ++ a)) ≡ r ∷ a ∷ []
  unfolding split_n
  split_two = rw (colon-append a) (
      rw (cut-append ":" r a hr, split_n)
        (rw (cut-Lacks ":" a ha, split_n) (rw (cut-append ":" r a hr, cut-Lacks ":" a ha))))

  split_three : (s : String) → split_n ":" 3 (r ++ (":" ++ (a ++ (":" ++ s)))) ≡ r ∷ a ∷ s ∷ []
  unfolding split_n
  split_three s = rw (colon-append s) (
      rw (colon-append (a ++ String.◌∷◌ ":" s)) (
        rw (cut-append ":" r (a ++ String.◌∷◌ ":" s) hr, split_n)
          (rw (cut-append ":" a s ha, split_n)
            (rw (cut-append ":" r (a ++ String.◌∷◌ ":" s) hr, cut-append ":" a s ha)))))

-- A scope that FormatPermission prints.
abbrev printed : String → Bool
printed s = s == "" || s == "*"

parse-format_unscoped :
    (p : Permission)
    → IsWellFormed p
    → printed p.scope ≡ true
    → parse_permission_string (format_permission p) ≡ ok (record p { scope = "" })
unfolding parse_permission_string format_permission
parse-format_unscoped p h e = rw e (
    rw (split_two p.resource p.action h.resource_plain h.action_plain)
      (ground (arith, eq_iff p.resource "", eq_iff p.action "", h.resource_given, h.action_given)))

parse-format_scoped :
    (p : Permission)
    → IsWellFormed p
    → printed p.scope ≡ false
    → parse_permission_string (format_permission p) ≡ ok p
unfolding parse_permission_string format_permission
parse-format_scoped p h e = rw e (
    rw (split_three p.resource p.action h.resource_plain h.action_plain p.scope)
      (ground (arith, eq_iff p.resource "", eq_iff p.action "", h.resource_given, h.action_given)))

-- The permission with a scope of "*" taken for the global one.
abbrev pub global_scope : Permission → Permission
global_scope p = record p { scope = if p.scope == "*" then "" else p.scope }

global_printed :
    (p : Permission) → printed p.scope ≡ true → record p { scope = "" } ≡ global_scope p
global_printed p e = ground (arith, eq_iff p.scope "", eq_iff p.scope "*")

global_unprinted : (p : Permission) → printed p.scope ≡ false → p ≡ global_scope p
global_unprinted p e = ground arith

global_other : (p : Permission) → (p.scope == "*") ≡ false → p ≡ global_scope p
global_other p n = ground arith

matches-global_scope :
    (p : Permission) (resource action scope : String)
    → matches (global_scope p) resource action scope ≡ matches p resource action scope
unfolding matches
matches-global_scope p resource action scope = elim (Bool-cases (p.scope == "*")) [
  | inl e ↦ rw e (ground arith)
  | inr n ↦ ap (λ q. matches q resource action scope) (sym (global_other p n))
]

-- A permission whose resource and action are not empty and have no colon is parsed back from its
-- text, with the global scope for "*" and with any other scope as it was, one that is empty or has
-- colons included; and the permission that comes back matches what the first one matches.
pub parse-format_permission :
    (p : Permission) (resource action scope : String)
    → IsWellFormed p
    → (parse_permission_string (format_permission p) ≡ ok (global_scope p))
      × (matches (global_scope p) resource action scope ≡ matches p resource action scope)
parse-format_permission p resource action scope h = (
  elim (Bool-cases (printed p.scope)) [
    | inl e ↦ parse-format_unscoped p h e ∙ ap ok (global_printed p e)
    | inr e ↦ parse-format_scoped p h e ∙ ap ok (global_unprinted p e)
  ],
  matches-global_scope p resource action scope,
)

parsed_two :
    (s w a : String) (p : Permission)
    → parse_parts s (w ∷ a ∷ []) ≡ ok p
    → p ≡ record { resource = w; action = a; scope = "" }
unfolding parse_parts
parsed_two s w a p h = ground arith

parsed_three :
    (s w a r : String) (p : Permission)
    → parse_parts s (w ∷ a ∷ r ∷ []) ≡ ok p
    → (p ≡ record { resource = w; action = a; scope = r }) × ((r == "") ≡ false)
unfolding parse_parts
parsed_three s w a r p h = ground arith

format_two :
    (s w a : String) (p : Permission)
    → w ++ String.◌∷◌ ":" a ≡ s
    → parse_parts s (w ∷ a ∷ []) ≡ ok p
    → format_permission p ≡ s
unfolding format_permission
format_two s w a p e h =
    ap format_permission (parsed_two s w a p h) ∙ ap (λ t. w ++ t) (colon-append a) ∙ e

format_three :
    (s w a r : String) (p : Permission)
    → w ++ String.◌∷◌ ":" (a ++ String.◌∷◌ ":" r) ≡ s
    → parse_parts s (w ∷ a ∷ r ∷ []) ≡ ok p
    → p.scope ≢ "*"
    → format_permission p ≡ s
unfolding format_permission
format_three s w a r p e h n =
    let (q, given) = parsed_three s w a r p h in
    let star : (r == "*") ≡ false =
      ground (arith, eq_iff r "*", n, ap (λ (x : Permission). x.scope) q) in
    ap format_permission q
    ∙ rw (given, star)
        (ap (λ t. w ++ (":" ++ (a ++ t))) (colon-append r)
          ∙ ap (λ t. w ++ t) (colon-append (a ++ String.◌∷◌ ":" r))
          ∙ e)

format_second :
    (s w r a : String) (o : Option String) (p : Permission)
    → w ++ String.◌∷◌ ":" r ≡ s
    → joined ":" a o ≡ r
    → parse_parts s (w ∷ elim o [ none ↦ a ∷ [] | some t ↦ a ∷ t ∷ [] ]) ≡ ok p
    → p.scope ≢ "*"
    → format_permission p ≡ s
format_second s w r a none p e f h n = format_two s w a p (ap (λ t. w ++ String.◌∷◌ ":" t) f ∙ e) h
format_second s w r a (some t) p e f h n =
    format_three s w a t p (ap (λ t. w ++ String.◌∷◌ ":" t) f ∙ e) h n

format_first :
    (s w : String) (o : Option String) (p : Permission)
    → joined ":" w o ≡ s
    → parse_parts s (elim o [ none ↦ w ∷ [] | some r ↦ w ∷ split_n ":" 2 r ]) ≡ ok p
    → p.scope ≢ "*"
    → format_permission p ≡ s
unfolding split_n
format_first s w none p e h n = unfold parse_parts in cc
format_first s w (some r) p e h n =
    format_second s w r (cut ":" r).0 (cut ":" r).1 p e (cut-joined ":" r) h n

-- A text that parses is printed back from its permission, unless its third part is "*".
pub format-parse_permission :
    (s : String) (p : Permission)
    → parse_permission_string s ≡ ok p
    → p.scope ≢ "*"
    → format_permission p ≡ s
unfolding parse_permission_string split_n
format-parse_permission s p h n =
    format_first s (cut ":" s).0 (cut ":" s).1 p (cut-joined ":" s) h n
