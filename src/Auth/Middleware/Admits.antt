-- ===== src/Auth/Middleware/Admits.antt =====
-- Which requests reach a handler, and with what context.
use Prim.Native.String.{◌++◌}
use Prim.Native.String.append
use stricklysoft_core.Prelude.{
  ℕ, ◌≡◌, ◌≢◌, refl, ap, sym, ◌∙◌, equal_fold, true, String, Option, none, some, List, [], ◌∷◌,
  arith, ◌==◌, eq_iff, Bool-cases, inl, inr,
}
use stricklysoft_core.Errors.Results.{Result, ok, err}
use stricklysoft_core.Auth.Identity.{Identity}
use stricklysoft_core.Auth.CallChain.{CallChain}
use stricklysoft_core.Auth.Context.{
  Context, identity_from_context, context_with_identity, context_with_caller_service,
  context_with_call_chain,
}
use stricklysoft_core.Auth.Middleware.{
  Decision, refused, admitted, Validate, header_authorization, header_caller_service,
  header_call_chain, after_prefix, extract_bearer_token, first_value, http_decision, enriched,
  grpc_token, with_chain, with_caller, extract_identity_from_grpc,
}

module _ {S : Type 0} (validate : Validate S) (unmarshal : List ℕ → Result CallChain) where
  -- The context that a request is admitted with, if it is.
  abbrev pub outcome : Decision × S → Option Context × S
  outcome (refused message, s) = (none, s)
  outcome (admitted ctx, s) = (some ctx, s)

  token_lem :
      (md : String → List String) (values : List String) (ctx : Context) (s : S)
      → md header_authorization ≡ values
      → outcome (grpc_token validate unmarshal md values ctx s)
        ≡ outcome
            (http_decision validate unmarshal (λ k. first_value validate unmarshal (md k)) ctx s)
  unfolding http_decision extract_bearer_token
  token_lem md [] ctx s e = rw e
  token_lem md (value ∷ values) ctx s e = rw e (ground arith)

  -- The gRPC interceptors admit the same requests as the HTTP middleware, with the same context,
  -- and leave the same state, if the metadata has under each key what the headers have first.
  pub grpc-http_decision :
      (md : String → List String) (ctx : Context) (s : S)
      → outcome (extract_identity_from_grpc validate unmarshal (some md) ctx s)
        ≡ outcome
            (http_decision validate unmarshal (λ k. first_value validate unmarshal (md k)) ctx s)
  unfolding extract_identity_from_grpc
  grpc-http_decision md ctx s = token_lem md (md header_authorization) ctx s refl

  identity_kept :
      (ctx : Context) (identity : Identity) (caller chain : String)
      → identity_from_context (
          with_chain validate unmarshal chain
            (with_caller validate unmarshal caller (context_with_identity ctx identity)))
        ≡ some identity
  unfolding identity_from_context context_with_identity context_with_caller_service
      context_with_call_chain
  identity_kept ctx identity caller chain = ground arith

  admitted_by :
      (ctx c : Context) (caller chain : String) (r : Result Identity) (s s' : S)
      → enriched validate unmarshal ctx caller chain (r, s) ≡ (admitted c, s')
      → (identity : Identity) × (r ≡ ok identity)
        × (s ≡ s')
        × (identity_from_context c ≡ some identity)
  admitted_by ctx c caller chain (err e) s s' h = absurd (ground (arith, h))
  admitted_by ctx c caller chain (ok identity) s s' h = (
    identity,
    refl,
    ground (arith, h),
    ap (λ (d : Decision × S). decided d.0) (sym h) ∙ identity_kept ctx identity caller chain,
  )
    where
      decided : Decision → Option Identity
      decided (refused message) = none
      decided (admitted c) = identity_from_context c

  -- A request that the HTTP middleware admits has a bearer token that is not empty, the validator
  -- has accepted that token, and the handler finds the validator's identity in its context.
  pub http_decision-identity :
      (get : String → String) (ctx c : Context) (s s' : S)
      → http_decision validate unmarshal get ctx s ≡ (admitted c, s')
      → (identity : Identity) × (extract_bearer_token (get header_authorization) ≢ "")
        × ((validate ctx (extract_bearer_token (get header_authorization)) s).0 ≡ ok identity)
        × ((validate ctx (extract_bearer_token (get header_authorization)) s).1 ≡ s')
        × (identity_from_context c ≡ some identity)
  unfolding http_decision
  http_decision-identity get ctx c s s' h =
      let token = extract_bearer_token (get header_authorization) in
      elim (Bool-cases (token == "")) [
        | inl e ↦ absurd (let h' = rw e at h in ground (arith, h'))
        | inr e ↦
            let h' = rw e at h in
            let found = validate ctx token s in
            let (identity, accepted, same, kept) =
              admitted_by ctx c (get header_caller_service) (get header_call_chain) found.0 found.1
                s' h' in
            (identity, ground (arith, eq_iff token "", e), accepted, same, kept)
      ]

after_prefix-append :
    (prefix scheme token : String)
    → equal_fold scheme prefix ≡ true
    → after_prefix prefix (scheme ++ token) ≡ token
unfolding after_prefix equal_fold
after_prefix-append String.[] String.[] token h = append.nil token
after_prefix-append String.[] (String.◌∷◌ c s) token h = absurd (ground (arith, h))
after_prefix-append (String.◌∷◌ p prefix) String.[] token h = absurd (ground (arith, h))
after_prefix-append (String.◌∷◌ p prefix) (String.◌∷◌ c s) token h =
    let head : equal_fold (String.◌∷◌ c "") (String.◌∷◌ p "") ≡ true = ground (arith, h) in
    rw (append.cons c s token, head) (after_prefix-append prefix s token (ground (arith, h)))

-- The token is found behind "Bearer " in any mix of cases.
extract_bearer_token-append :
    (scheme token : String)
    → equal_fold scheme "Bearer " ≡ true
    → extract_bearer_token (scheme ++ token) ≡ token
unfolding extract_bearer_token
extract_bearer_token-append scheme token h = after_prefix-append "Bearer " scheme token h
