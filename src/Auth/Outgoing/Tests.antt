-- ===== src/Auth/Outgoing/Tests.antt =====
-- A request of an HTTP client, and the theorem at a concrete input. JSON knows one call chain only.
use stricklysoft_core.Prelude.{
  ℕ, ◌≡◌, ◌≢◌, refl, ap, subst, Bool, true, false, ◌&&◌, String, none, some, List, [], ◌∷◌, arith,
  ◌==◌, eq_iff, if◌then◌else◌, All, IsByte, Dict, insert_all,
}
use stricklysoft_core.Errors.{plain}
use stricklysoft_core.Errors.Results.{Result, ok, err}
use stricklysoft_core.Auth.Identity.{
  Identity, basic, type_user, type_of, id_of, claims_of, valid_type, new_basic_identity,
}
use stricklysoft_core.Auth.CallChain.{CallerInfo, CallChain}
use stricklysoft_core.Auth.Context.{Context, identity_from_context, call_chain_from_context}
use stricklysoft_core.Auth.Propagation.{Json, identity_to_headers, identity_from_headers}
use stricklysoft_core.Auth.Propagation.RoundTrip.{KeepsValues, read}
use stricklysoft_core.Auth.Outgoing.{outgoing_chain, headers_of, round_trip}
use stricklysoft_core.Auth.Outgoing.Received.{Extends, identity_from_headers-round_trip}

abbrev gateway : CallerInfo
gateway = record { service_name = "gateway"; identity_id = "u1"; identity_type = "user" }

-- The request came from another user, through the service edge.
abbrev edge : CallerInfo
edge = record { service_name = "edge"; identity_id = "u0"; identity_type = "user" }

abbrev known_chain : CallChain
known_chain = record { original_id = "u0"; original_type = "user"; callers = edge ∷ gateway ∷ [] }

abbrev is_caller : CallerInfo → CallerInfo → Bool
is_caller k c =
    c.service_name == k.service_name
    && c.identity_id == k.identity_id
    && c.identity_type == k.identity_type

abbrev both_callers : List CallerInfo → Bool
both_callers (c ∷ d ∷ []) = is_caller edge c && is_caller gateway d
both_callers _ = false

abbrev marshal_known : CallChain → Result (List ℕ)
marshal_known c =
    if c.original_id == "u0" && c.original_type == "user" && both_callers c.callers
    then ok (123 ∷ 125 ∷ [])
    else err (plain "unknown")

abbrev one_chain : Json
one_chain = record {
  marshal_claims = λ _. err (plain "unknown");
  unmarshal_claims = λ _. err (plain "unknown");
  marshal_chain = marshal_known;
  unmarshal_chain = λ _. ok known_chain;
  decimal = λ _. "many";
}

caller_known : (k c : CallerInfo) → is_caller k c ≡ true → k ≡ c
caller_known k c h = ground (
  arith,
  h,
  eq_iff c.service_name k.service_name,
  eq_iff c.identity_id k.identity_id,
  eq_iff c.identity_type k.identity_type,
)

callers_known : (cs : List CallerInfo) → both_callers cs ≡ true → edge ∷ gateway ∷ [] ≡ cs
callers_known [] h = absurd (ground (arith, h))
callers_known (c ∷ []) h = absurd (ground (arith, h))
callers_known (c ∷ d ∷ e ∷ cs) h = absurd (ground (arith, h))
callers_known (c ∷ d ∷ []) h = ground (arith, h, caller_known edge c, caller_known gateway d)

known_kept :
    (c : CallChain) (bytes : List ℕ)
    → marshal_known c ≡ ok bytes
    → (123 ∷ 125 ∷ [] ≡ bytes) × (known_chain ≡ c)
known_kept c bytes h = (
  ground (arith, h),
  ground
      (arith, h, eq_iff c.original_id "u0", eq_iff c.original_type "user", callers_known c.callers),
)

braces : (bytes : List ℕ) → 123 ∷ 125 ∷ [] ≡ bytes → All IsByte bytes × (bytes ≢ [])
braces bytes e =
    subst (λ b. All IsByte b × (b ≢ [])) e ((omega arith, (omega arith, tt)), ground arith)

one_chain-KeepsValues : KeepsValues one_chain
one_chain-KeepsValues = record {
  claims_kept = λ claims bytes h. absurd (ground (arith, h));
  chain_kept = λ chain bytes h.
      let (b, e) = known_kept chain bytes h in
      let (octets, given) = braces bytes b in (octets, given, ap ok e);
}

abbrev caller : Identity
caller = basic (record { id = "u1"; id_type = type_user; claims = [] })

abbrev arrived : CallChain
arrived = record { original_id = "u0"; original_type = "user"; callers = edge ∷ [] }

abbrev with_caller : Context
with_caller = record { identity = some caller; caller_service = none; call_chain = some arrived }

abbrev fitting : Dict String
fitting =
    ("x-identity-id", "u1")
    ∷ ("x-identity-type", "user")
    ∷ ("x-caller-service", "gateway")
    ∷ ("x-call-chain", "e30")
    ∷ []

headers_fit : headers_of one_chain "gateway" with_caller (some caller) ≡ ok fitting
unfolding identity_to_headers outgoing_chain call_chain_from_context insert_all
headers_fit = refl

identity_from_headers-round_trip_example :
    (sent : CallChain) × (identity_from_headers one_chain
        (read one_chain one_chain-KeepsValues (round_trip one_chain "gateway" with_caller []))
      ≡ ok (record {
        identity = some (new_basic_identity "u1" "user" []);
        caller_service = "gateway";
        call_chain = some sent;
      }))
    × Extends "gateway" caller (some arrived) sent
unfolding id_of type_of claims_of valid_type insert_all call_chain_from_context
    identity_from_context
identity_from_headers-round_trip_example =
    identity_from_headers-round_trip one_chain one_chain-KeepsValues "gateway" with_caller caller
      fitting refl (ground (arith, eq_iff "u1" "")) refl headers_fit
