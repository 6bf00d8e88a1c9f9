-- ===== src/Auth/Jwt/Kubernetes/Sources.antt =====
-- The three places that name a service account, one after the other.
use Prim.Native.String.{◌++◌}
use text.Mathlib.TextLemmas.{append_assoc}
use stricklysoft_core.Prelude.{
  ◌≡◌, ◌≢◌, ap, ◌∙◌, false, ◌&&◌, ◌||◌, String, List, [], ◌∷◌, arith, ◌==◌, eq_iff, if◌then◌else◌,
  split, colon-append, sym, split-append, split-Lacks, Lacks, lookup, insert, insert_all,
  Bool-cases, inl, inr,
}
use stricklysoft_core.Value.{string, Claims}
use stricklysoft_core.Errors.Results.{ok}
use stricklysoft_core.Auth.Permission.{Permission}
use stricklysoft_core.Auth.Identity.{new_service_identity}
use stricklysoft_core.Auth.Jwt.Kubernetes.{
  Names, text_or_empty, from_nested, from_flat, from_parts, resolve, parse_service_account,
}

-- The first text that is not empty.
abbrev pub first_given : List String → String
first_given [] = ""
first_given (s ∷ ss) = let rest = first_given ss in if s == "" then rest else s

-- The names in a subject "system:serviceaccount:<namespace>:<name>".
abbrev pub subject_names : List String → Names
subject_names (a ∷ b ∷ c ∷ d ∷ []) =
    if a == "system" && b == "serviceaccount"
    then record { namespace = c; sa_name = d }
    else record { namespace = ""; sa_name = "" }
subject_names _ = record { namespace = ""; sa_name = "" }

abbrev pub sources : (Names → String) → String → Claims → List String
sources part flat_key claims =
    part (from_nested claims)
    ∷ text_or_empty flat_key claims
    ∷ part (subject_names (split ":" (text_or_empty "sub" claims)))
    ∷ []

parts_namespace :
    (parts : List String) (n : Names)
    → (from_parts parts n).namespace
      ≡ (if n.namespace == "" then (subject_names parts).namespace else n.namespace)
parts_namespace parts n = ground (arith, eq_iff n.namespace "")

parts_name :
    (parts : List String) (n : Names)
    → (from_parts parts n).sa_name
      ≡ (if n.sa_name == "" then (subject_names parts).sa_name else n.sa_name)
parts_name parts n = ground (arith, eq_iff n.sa_name "")

given_or : String → String → String
given_or s rest = if s == "" then rest else s

first_of_three : (a b c : String) → given_or (given_or a b) c ≡ first_given (a ∷ b ∷ c ∷ [])
unfolding given_or
first_of_three a b c = elim (Bool-cases (a == "")) [
  | inl e ↦ rw e (ground (arith, eq_iff c ""))
  | inr e ↦ rw (e, e)
]

module _ (n : Names) (parts : List String) where
  with_subject : Names
  with_subject = if n.namespace == "" || n.sa_name == "" then from_parts parts n else n

  subject_namespace : with_subject.namespace ≡ given_or n.namespace (subject_names parts).namespace
  unfolding with_subject given_or
  subject_namespace = ground (arith, parts_namespace parts n)

  subject_name : with_subject.sa_name ≡ given_or n.sa_name (subject_names parts).sa_name
  unfolding with_subject given_or
  subject_name = ground (arith, parts_name parts n)

-- The namespace is the first that is given of the nested claim, the flat claim and the subject, and
-- so is the name of the service account, each for itself.
pub resolve_lem :
    (claims : Claims)
    → ((resolve claims).namespace
        ≡ first_given (sources (λ n. n.namespace) "kubernetes.io/serviceaccount/namespace" claims))
      × ((resolve claims).sa_name
          ≡ first_given
              (sources (λ n. n.sa_name) "kubernetes.io/serviceaccount/service-account.name" claims))
unfolding with_subject given_or
resolve_lem claims =
    let flat = from_flat claims (from_nested claims) in
    let parts = split ":" (text_or_empty "sub" claims) in
    let nested = from_nested claims in
    (
      subject_namespace flat parts
          ∙ first_of_three nested.namespace
              (text_or_empty "kubernetes.io/serviceaccount/namespace" claims)
              (subject_names parts).namespace,
      subject_name flat parts
          ∙ first_of_three nested.sa_name
              (text_or_empty "kubernetes.io/serviceaccount/service-account.name" claims)
              (subject_names parts).sa_name,
    )

module _ (namespace name : String) (l : Lacks ":" namespace) (k : Lacks ":" name) where
  subject : String
  subject = "system:serviceaccount:" ++ (namespace ++ (":" ++ name))

  subject_parts : split ":" subject ≡ "system" ∷ "serviceaccount" ∷ namespace ∷ name ∷ []
  unfolding subject
  subject_parts =
      let rest = namespace ++ (":" ++ name) in
      let third =
        ap (split ":") (ap (λ t. namespace ++ t) (colon-append name))
        ∙ split-append ":" namespace name l
        ∙ ap (λ t. namespace ∷ t) (split-Lacks ":" name k) in
      let second =
        ap (split ":") (
          append_assoc "serviceaccount" ":" rest
          ∙ ap (λ t. "serviceaccount" ++ t) (colon-append rest))
        ∙ split-append ":" "serviceaccount" rest (ground arith)
        ∙ ap (λ t. "serviceaccount" ∷ t) third in
      ap (split ":") (
        append_assoc "system" ":serviceaccount:" rest
        ∙ ap (λ t. "system" ++ t)
            (append_assoc ":" "serviceaccount:" rest ∙ colon-append ("serviceaccount:" ++ rest)))
      ∙ split-append ":" "system" ("serviceaccount:" ++ rest) (ground arith)
      ∙ ap (λ t. "system" ∷ t) second

  subject_given : (subject == "") ≡ false
  unfolding split
  subject_given =
      ground (arith, eq_iff subject "", λ (e : subject ≡ ""). sym subject_parts ∙ ap (split ":") e)

-- A token that only has a subject "system:serviceaccount:<namespace>:<name>", of names that are not
-- empty and have no colon, is turned into the identity of that service account in that namespace,
-- with the subject as its id.
parse_service_account-subject :
    (namespace name : String) (permissions : List Permission)
    → namespace ≢ ""
    → name ≢ ""
    → Lacks ":" namespace
    → Lacks ":" name
    → parse_service_account
        (("sub", string ("system:serviceaccount:" ++ (namespace ++ (":" ++ name)))) ∷ [])
        permissions
      ≡ ok (record {
        id = "system:serviceaccount:" ++ (namespace ++ (":" ++ name));
        service_name = name;
        namespace = namespace;
        claims = ("sub", string ("system:serviceaccount:" ++ (namespace ++ (":" ++ name)))) ∷ [];
        permissions = permissions;
      })
unfolding parse_service_account new_service_identity lookup subject insert_all insert
parse_service_account-subject namespace name permissions n m l k =
    rw (subject_parts namespace name l k, subject_given namespace name l k)
      (ground (arith, eq_iff namespace "", eq_iff name "", subject_given namespace name l k, n, m))
