-- ===== src/Errors/Laws.antt =====
-- Laws of pkg/errors: what the category, the HTTP status, the checks, the wrapping constructors and
-- the detail maps have to do with each other.
use Prim.Native.String.{◌++◌}
use Prim.Native.String.append
use stricklysoft_core.Prelude.{
  ◌≤◌, ◌<◌, ◌≡◌, refl, ap, ◌↔◌, ◌⊎◌, inl, inr, ◌||◌, ◌&&◌, not, Bool-cases, Option, Bool, true,
  false, String, none, some, List, [], ◌∷◌, ◌∙◌, Dict, insert_all, arith, ◌==◌, eq_iff, Lacks,
  lookup, lookup-copy, lookup-insert_all, IsMap, or_else,
}
use stricklysoft_core.Value.{Value}
use stricklysoft_core.Errors.{
  GoError, Error, wrapped, error, caused_by, code_of, message_of, cause_of, details_of, http_status,
  with_details, with_detail,
}
use stricklysoft_core.Errors.Codes.{category, code_internal}
use stricklysoft_core.Errors.Checks.{
  find_platform, as_error, get_code, is_internal, in_category, is_client_error, is_server_error,
  is_retryable, from_error, code_or_empty, or_internal,
}

-- The category of a code that has an underscore is the text in front of the first underscore,
-- whatever follows.
category-append : (a b : String) → Lacks "_" a → category (a ++ String.◌∷◌ "_" b) ≡ a
unfolding category
category-append String.[] b h = rw (append.nil (String.◌∷◌ "_" b))
category-append (String.◌∷◌ c s) b h =
    rw (append.cons c s (String.◌∷◌ "_" b), h.0) (ap (String.◌∷◌ c) (category-append s b h.1))

-- The client errors are those platform errors whose HTTP status is between 400 and 499.
is_client_error-http_status :
    (err : GoError) (e : Error)
    → as_error (some err) ≡ some e
    → (is_client_error (some err) ≡ true) ↔ ((400 ≤ http_status e) × (http_status e < 500))
unfolding is_client_error http_status
is_client_error-http_status err e h = ground arith

abbrev is_server_category : String → Bool
is_server_category c = c == "INT" || c == "UNAVAIL" || c == "TIMEOUT"

abbrev is_client_category : String → Bool
is_client_category c = c == "VAL" || c == "AUTH" || c == "AUTHZ" || c == "NF" || c == "CONF"

server_category_cases :
    (c : String) → is_server_category c ≡ true → (c ≡ "INT") ⊎ (c ≡ "UNAVAIL") ⊎ (c ≡ "TIMEOUT")
server_category_cases c h = ground (arith, eq_iff c "INT", eq_iff c "UNAVAIL", eq_iff c "TIMEOUT")

not_client : (c : String) → is_server_category c ≡ true → is_client_category c ≡ false
not_client c h = elim (server_category_cases c h) [
  | inl e ↦ rw e
  | inr (inl e) ↦ rw e
  | inr (inr e) ↦ rw e
]

server_statuses :
    (e : Error)
    → is_server_category (category (code_of e)) ≡ true
    → (500 ≤ http_status e) × (is_client_category (category (code_of e)) ≡ false)
unfolding http_status
server_statuses e h = let n = not_client (category (code_of e)) h in (ground arith, n)

-- A server error has a status from 500 on and is no client error.
is_server_error-http_status :
    (err : GoError) (e : Error)
    → as_error (some err) ≡ some e
    → is_server_error (some err) ≡ true
    → (500 ≤ http_status e) × (is_client_error (some err) ≡ false)
unfolding is_server_error is_client_error http_status
is_server_error-http_status err e h s = ground (arith, server_statuses e)

is_retryable_category :
    (c : String) → (c == "TIMEOUT" || c == "UNAVAIL") ≡ (is_server_category c && not (c == "INT"))
is_retryable_category c = elim (Bool-cases (c == "INT")) [
  | inl e ↦ rw ((eq_iff c "INT").0 e)
  | inr n ↦ rw n (ground arith)
]

-- The retryable errors are the server errors that are not internal, nil and foreign errors
-- included, which are neither.
is_retryable-is_server_error :
    (err : Option GoError) → is_retryable err ≡ (is_server_error err && not (is_internal err))
unfolding is_retryable is_server_error is_internal
is_retryable-is_server_error err = by_error (as_error err)
  where
    by_error :
        (o : Option Error)
        → in_category (λ c. c == "TIMEOUT" || c == "UNAVAIL") o
          ≡ (in_category is_server_category o && not (in_category (λ c. c == "INT") o))
    by_error none = refl
    by_error (some e) = is_retryable_category (category (code_of e))

-- fmt.Errorf's %w, once for each text.
abbrev pub layers : List String → GoError → GoError
layers [] err = err
layers (text ∷ texts) err = wrapped text (layers texts err)

as_error-layers :
    (texts : List String) (err : GoError) → as_error (some (layers texts err)) ≡ as_error (some err)
unfolding as_error
as_error-layers [] err = refl
as_error-layers (text ∷ texts) err = as_error-layers texts err

-- Any number of layers of context added with %w changes no answer of GetCode, and FromError finds
-- the platform error below them; on an error with no platform error in it FromError makes one with
-- code INT_001 whose cause is that error with its layers.
pub from_error-layers :
    (texts : List String) (err : GoError)
    → (get_code (some (layers texts err)) ≡ get_code (some err))
      × (from_error (some (layers texts err)) ≡ elim (as_error (some err)) [
        | some e ↦ some e
        | none ↦
            some
              (error code_internal "an unexpected error occurred" (caused_by (layers texts err)) [])
      ])
unfolding get_code from_error
from_error-layers texts err = (
  ap code_or_empty (as_error-layers texts err),
  ap (or_internal (layers texts err)) (as_error-layers texts err)
      ∙ found (layers texts err) (find_platform err),
)
  where
    found :
        (err : GoError) (o : Option Error)
        → or_internal err o ≡ elim o [
          | some e ↦ some e
          | none ↦ some (error code_internal "an unexpected error occurred" (caused_by err) [])
        ]
    found err none = refl
    found err (some e) = refl

-- With distinct keys in both maps, a key of the new details has its new value, any other its old
-- one, and the code, the message and the cause are those of the receiver; WithDetail is WithDetails
-- with one entry.
with_details_lem :
    (e : Error) (details : Dict Value) (k key : String) (value : Value)
    → IsMap (details_of e)
    → IsMap details
    → (lookup k (details_of (with_details e details))
        ≡ or_else (lookup k details) (lookup k (details_of e)))
      × (code_of (with_details e details) ≡ code_of e)
      × (message_of (with_details e details) ≡ message_of e)
      × (cause_of (with_details e details) ≡ cause_of e)
      × (with_detail e key value ≡ with_details e ((key, value) ∷ []))
unfolding with_details with_detail insert_all
with_details_lem (error c m cause old) details k key value h h' = (
  lookup-insert_all k details (insert_all old []) h'
      ∙ ap (or_else (lookup k details)) (lookup-copy k old h),
  refl,
  refl,
  refl,
  refl,
)
