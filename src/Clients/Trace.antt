-- ===== src/Clients/Trace.antt =====
-- What the clients have in common: a span of the trace around every call of the driver, and the error
-- of the call as a platform error. Each package has `finishSpan` and `wrapError` with the same body; they
-- stand for those of pkg/clients/postgres/client.go.
use stricklysoft_core.Prelude.{
  ℕ, ◌+◌, Bool, true, false, String, Option, none, some, List, [], ◌∷◌, ◌++◌, ℤ, if◌then◌else◌,
}
use stricklysoft_core.Errors.{GoError, Error, error_text, wrap}
use stricklysoft_core.Errors.Chains.{is_error}
use stricklysoft_core.Errors.Codes.{
  code_timeout_database, code_internal_database, code_unavailable_dependency,
}

-- `attribute.String` and `attribute.Int`
pub data Attribute : Type 0 where
  string_value : String → Attribute
  int_value : ℤ → Attribute

pub data SpanStatus : Type 0 where
  unset_status ok_status : SpanStatus
  error_status : String → SpanStatus

pub record Span : Type 0 where
  pub name : String
  pub attributes : List (String × Attribute)
  pub recorded : List GoError
  pub status : SpanStatus
  pub ended : Bool

-- `tracer.Start` with `SetAttributes` behind it.
abbrev pub started : String → List (String × Attribute) → Span
started name attributes = record {
  name = name;
  attributes = attributes;
  recorded = [];
  status = unset_status;
  ended = false;
}

unfoldable pub finish_span : Span → Option GoError → Span
finish_span span none = record span { status = ok_status; ended = true }
finish_span span (some e) = record span {
  recorded = e ∷ [];
  status = error_status (error_text e);
  ended = true;
}

unfoldable pub wrap_error : Option GoError → String → Option Error
unfolding is_error wrap
wrap_error none message = none
wrap_error (some e) message =
    if is_error "context.DeadlineExceeded" e
    then wrap (some e) code_timeout_database message
    else wrap (some e) code_internal_database message

-- The state of the driver, and the spans that have ended, in the order of their ends.
pub record Traced (D : Type 0) : Type 0 where
  pub driver : D
  pub spans : List Span

abbrev pub appended : List Span → Span → List Span
appended spans span = spans ++ span ∷ []

-- A call of the driver: its value and its error, which may both be there, and the driver behind it.
abbrev pub Call : Type 0 → Type 0 → Type 0
Call D T = D → (T × Option GoError) × D

module _ {T : Type 0} where
  -- What a method returns: on an error the value that it makes of the driver's, and the wrapped error.
  abbrev pub answer : (T → T) → String → T × Option GoError → T × Option Error
  answer on_error message (v, none) = (v, none)
  answer on_error message (v, some e) = (on_error v, wrap_error (some e) message)

  abbrev pub ended : Span → T × Option GoError → List Span
  ended span (v, e) = finish_span span e ∷ []

module _ {D : Type 0} {T : Type 0} where
  -- Start a span, call the driver, finish the span with the error, return.
  unfoldable pub traced :
      Span → (T → T) → String → Call D T → Traced D → (T × Option Error) × Traced D
  unfolding wrap_error finish_span
  traced span on_error message call c =
      let (result, d) = call c.driver in
      (answer on_error message result, record { driver = d; spans = c.spans ++ ended span result })

-- A context, as far as its deadline goes: a time in nanoseconds.
pub record Context : Type 0 where
  pub deadline : Option ℕ

-- `context.WithTimeout` where the context has no deadline.
abbrev pub with_timeout : ℕ → ℕ → Context → Context
with_timeout now timeout ctx = elim ctx.deadline [
  | some d ↦ ctx
  | none ↦ record { deadline = some (now + timeout) }
]

-- The error of a health check
abbrev pub unavailable_error : String → Option GoError → Option Error
unavailable_error message none = none
unavailable_error message (some e) = wrap (some e) code_unavailable_dependency message

module _ {D : Type 0} where
  -- The common part of the health checks: they differ in the span, the timeout, the call and the text.
  unfoldable pub health :
      Span
      → String
      → ℕ
      → ℕ
      → (Context → Call D (Unit {0}))
      → Context
      → Traced D
      → Option Error × Traced D
  unfolding finish_span wrap
  health span message now timeout ping ctx c =
      let (result, d) = ping (with_timeout now timeout ctx) c.driver in
      (
        unavailable_error message result.1,
        record { driver = d; spans = c.spans ++ finish_span span result.1 ∷ [] },
      )
