-- ===== src/Auth/Propagation/Tests.antt =====
-- Runs of the propagation on small inputs, and the theorem at a concrete input.
use stricklysoft_core.Prelude.{
  ℕ, ◌≡◌, ◌≢◌, refl, ap, subst, Bool, true, false, ◌&&◌, String, some, List, [], ◌∷◌, arith, ◌==◌,
  eq_iff, if◌then◌else◌, All, IsByte, Dict, insert, insert_all,
}
use stricklysoft_core.Value.{bool, number, string, array, object, null, Claims}
use stricklysoft_core.Errors.{plain}
use stricklysoft_core.Errors.Results.{Result, ok, err}
use stricklysoft_core.Auth.Identity.{
  Identity, basic, type_user, valid_type, type_of, id_of, claims_of, new_basic_identity,
}
use stricklysoft_core.Auth.CallChain.{CallerInfo, CallChain}
use stricklysoft_core.Auth.Propagation.{Json, identity_to_headers, identity_from_headers}
use stricklysoft_core.Auth.Propagation.RoundTrip.{
  KeepsValues, read, identity_from_headers-to_headers,
}

abbrev sample_claims : Claims
sample_claims = ("admin", bool true) ∷ []

abbrev sample_chain : CallChain
sample_chain = record { original_id = "u1"; original_type = "user"; callers = [] }

-- A JSON package that knows these two values and refuses all others.
abbrev marshal_sample_claims : Claims → Result (List ℕ)
marshal_sample_claims ((k, bool true) ∷ []) =
    if k == "admin" then ok (123 ∷ 49 ∷ []) else err (plain "unknown")
marshal_sample_claims _ = err (plain "unknown")

abbrev has_no_callers : List CallerInfo → Bool
has_no_callers [] = true
has_no_callers (c ∷ cs) = false

abbrev marshal_sample_chain : CallChain → Result (List ℕ)
marshal_sample_chain c =
    if c.original_id == "u1" && c.original_type == "user" && has_no_callers c.callers
    then ok (123 ∷ 50 ∷ 125 ∷ [])
    else err (plain "unknown")

abbrev samples : Json
samples = record {
  marshal_claims = marshal_sample_claims;
  unmarshal_claims = λ _. ok sample_claims;
  marshal_chain = marshal_sample_chain;
  unmarshal_chain = λ _. ok sample_chain;
  decimal = λ _. "many";
}

ok_injective : (x y : List ℕ) → ok x ≡ ok y → x ≡ y
ok_injective x y e = ap (λ (r : Result (List ℕ)). elim r [ err _ ↦ x | ok z ↦ z ]) e

two_bytes : (bytes : List ℕ) → 123 ∷ 49 ∷ [] ≡ bytes → All IsByte bytes × (bytes ≢ [])
two_bytes bytes e =
    subst (λ b. All IsByte b × (b ≢ [])) e ((omega arith, (omega arith, tt)), ground arith)

three_bytes : (bytes : List ℕ) → 123 ∷ 50 ∷ 125 ∷ [] ≡ bytes → All IsByte bytes × (bytes ≢ [])
three_bytes bytes e =
    subst (λ b. All IsByte b × (b ≢ [])) e
      ((omega arith, (omega arith, (omega arith, tt))), ground arith)

sample_claims_kept :
    (claims : Claims) (bytes : List ℕ)
    → marshal_sample_claims claims ≡ ok bytes
    → (123 ∷ 49 ∷ [] ≡ bytes) × (sample_claims ≡ claims)
sample_claims_kept [] bytes h = absurd (ground (arith, h))
sample_claims_kept ((k, bool false) ∷ cs) bytes h = absurd (ground (arith, h))
sample_claims_kept ((k, bool true) ∷ c ∷ cs) bytes h = absurd (ground (arith, h))
sample_claims_kept ((k, bool true) ∷ []) bytes h =
    (ground (arith, h), ground (arith, h, eq_iff k "admin"))
sample_claims_kept ((k, null) ∷ cs) bytes h = absurd (ground (arith, h))
sample_claims_kept ((k, number n) ∷ cs) bytes h = absurd (ground (arith, h))
sample_claims_kept ((k, string s) ∷ cs) bytes h = absurd (ground (arith, h))
sample_claims_kept ((k, array vs) ∷ cs) bytes h = absurd (ground (arith, h))
sample_claims_kept ((k, object m) ∷ cs) bytes h = absurd (ground (arith, h))

no_callers_lem : (cs : List CallerInfo) → has_no_callers cs ≡ true → [] ≡ cs
no_callers_lem [] h = refl
no_callers_lem (c ∷ cs) h = absurd (ground (arith, h))

sample_chain_kept :
    (c : CallChain) (bytes : List ℕ)
    → marshal_sample_chain c ≡ ok bytes
    → (123 ∷ 50 ∷ 125 ∷ [] ≡ bytes) × (sample_chain ≡ c)
sample_chain_kept c bytes h = (
  ground (arith, h),
  ground (
    arith,
    h,
    eq_iff c.original_id "u1",
    eq_iff c.original_type "user",
    no_callers_lem c.callers,
  ),
)

samples-KeepsValues : KeepsValues samples
samples-KeepsValues = record {
  claims_kept = λ claims bytes h.
      let (b, e) = sample_claims_kept claims bytes h in
      let (octets, given) = two_bytes bytes b in (octets, given, ap ok e);
  chain_kept = λ chain bytes h.
      let (b, e) = sample_chain_kept chain bytes h in
      let (octets, given) = three_bytes bytes b in (octets, given, ap ok e);
}

abbrev admin : Identity
admin = basic (record { id = "u1"; id_type = type_user; claims = sample_claims })

abbrev sent_headers : Dict String
sent_headers =
    ("x-identity-id", "u1")
    ∷ ("x-identity-type", "user")
    ∷ ("x-identity-claims", "ezE")
    ∷ ("x-caller-service", "gateway")
    ∷ ("x-call-chain", "ezJ9")
    ∷ []

admin_sent : identity_to_headers samples admin "gateway" (some sample_chain) ≡ ok sent_headers
unfolding identity_to_headers insert_all
admin_sent = refl

identity_from_headers-to_headers_example :
    identity_from_headers samples (read samples samples-KeepsValues sent_headers)
    ≡ ok (record {
      identity = some (new_basic_identity "u1" "user" sample_claims);
      caller_service = "gateway";
      call_chain = some sample_chain;
    })
unfolding id_of type_of claims_of valid_type insert_all insert
identity_from_headers-to_headers_example =
    identity_from_headers-to_headers samples samples-KeepsValues admin "gateway" (some sample_chain)
      sent_headers (ground (arith, eq_iff "u1" "")) refl admin_sent
