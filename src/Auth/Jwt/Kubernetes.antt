-- ===== src/Auth/Jwt/Kubernetes.antt =====
-- pkg/auth/k8s.go: the identity of a Kubernetes service account, from the claims of its token.
pub mod Sources
use Prim.Native.String.{◌++◌}
use stricklysoft_core.Prelude.{
  Bool, ◌&&◌, ◌||◌, String, Option, none, some, List, [], ◌∷◌, ◌==◌, if◌then◌else◌, Dict, lookup,
  split,
}
use stricklysoft_core.Value.{Value, as_string, as_object, Claims}
use stricklysoft_core.Errors.{plain}
use stricklysoft_core.Errors.Results.{Result, ok, err}
use stricklysoft_core.Auth.Permission.{Permission}
use stricklysoft_core.Auth.Identity.{ServiceIdentity, new_service_identity}

abbrev text_of : Option Value → String
text_of none = ""
text_of (some v) = elim (as_string v) [ none ↦ "" | some s ↦ s ]

-- `s, _ := m[key].(string)`
abbrev pub text_or_empty : String → Claims → String
text_or_empty key claims = text_of (lookup key claims)

abbrev object_of : Option Value → Claims
object_of none = []
object_of (some v) = elim (as_object v) [ none ↦ [] | some m ↦ m ]

-- `m, ok := m[key].(map[string]any)`, with the empty map where that fails: it has no entries to read.
abbrev pub object_or_empty : String → Claims → Claims
object_or_empty key claims = object_of (lookup key claims)

-- The variables `namespace` and `saName`.
pub record Names : Type 0 where
  pub namespace : String
  pub sa_name : String

abbrev pub from_nested : Claims → Names
from_nested claims =
    let k8s = object_or_empty "kubernetes.io" claims in
    record {
      namespace = text_or_empty "namespace" k8s;
      sa_name = text_or_empty "name" (object_or_empty "serviceaccount" k8s);
    }

abbrev pub from_flat : Claims → Names → Names
from_flat claims n = record {
  namespace =
      if n.namespace == ""
      then text_or_empty "kubernetes.io/serviceaccount/namespace" claims
      else n.namespace;
  sa_name =
      if n.sa_name == ""
      then text_or_empty "kubernetes.io/serviceaccount/service-account.name" claims
      else n.sa_name;
}

abbrev pub from_parts : List String → Names → Names
from_parts (a ∷ b ∷ c ∷ d ∷ []) n =
    if a == "system" && b == "serviceaccount"
    then record {
      namespace = if n.namespace == "" then c else n.namespace;
      sa_name = if n.sa_name == "" then d else n.sa_name;
    }
    else n
from_parts _ n = n

abbrev pub from_subject : Claims → Names → Names
from_subject claims n =
    if n.namespace == "" || n.sa_name == ""
    then from_parts (split ":" (text_or_empty "sub" claims)) n
    else n

abbrev pub resolve : Claims → Names
resolve claims = from_subject claims (from_flat claims (from_nested claims))

-- `parseK8sServiceAccountClaims`
unfoldable pub parse_service_account : Claims → List Permission → Result ServiceIdentity
unfolding new_service_identity
parse_service_account claims permissions =
    let n = resolve claims in
    let sub = text_or_empty "sub" claims in
    let id =
      if sub == "" then "system:serviceaccount:" ++ (n.namespace ++ (":" ++ n.sa_name)) else sub in
    if n.namespace == ""
    then err (plain "auth: kubernetes token missing namespace claim")
    else if n.sa_name == ""
    then err (plain "auth: kubernetes token missing service account name claim")
    else new_service_identity id n.sa_name n.namespace claims permissions
