-- ===== src/Clients/Observed.antt =====
-- What a call with a span around it leaves in the trace, and which error it returns.
use stricklysoft_core.Prelude.{
  ℕ, ◌+◌, true, false, String, Option, none, some, List, [], ◌∷◌, ◌++◌, ◌≡◌, inl, inr, refl, sym,
  subst, ◌∙◌, arith, Bool-cases, length, length-append,
}
use stricklysoft_core.Errors.{GoError, Error, error, caused_by, code_of, cause_of, wrap}
use stricklysoft_core.Errors.Chains.{is_error}
use stricklysoft_core.Errors.Codes.{code_timeout_database, code_internal_database}
use stricklysoft_core.Clients.Trace.{
  Span, SpanStatus, unset_status, ok_status, error_status, Traced, Call, answer, finish_span,
  wrap_error, traced, ended,
}

abbrev pub is_error_status : SpanStatus → ℕ
is_error_status unset_status = 0
is_error_status ok_status = 0
is_error_status (error_status m) = 1

-- The number of spans that tell of an error.
abbrev pub count_errors : List Span → ℕ
count_errors [] = 0
count_errors (span ∷ spans) = is_error_status span.status + count_errors spans

abbrev pub AllEnded : List Span → Type 0
AllEnded [] = Unit
AllEnded (span ∷ spans) = (span.ended ≡ true) × AllEnded spans

abbrev pub failures {ℓ} : {A : Type ℓ} → Option A → ℕ
failures none = 0
failures (some _) = 1

count-append : (xs ys : List Span) → count_errors (xs ++ ys) ≡ count_errors xs + count_errors ys
count-append [] ys = omega arith
count-append (x ∷ xs) ys = omega (arith, count-append xs ys)

AllEnded-append : (xs ys : List Span) → AllEnded xs → AllEnded ys → AllEnded (xs ++ ys)
AllEnded-append [] ys h k = k
AllEnded-append (x ∷ xs) ys h k = (h.0, AllEnded-append xs ys h.1 k)

-- What one method adds to the trace: one span, ended, which tells of an error if one is returned.
pub record Adds {D : Type 0} (before : Traced D) (failed : ℕ) (after : Traced D) : Type 0 where
  pub one_more : length after.spans ≡ length before.spans + 1
  pub errors : count_errors after.spans ≡ count_errors before.spans + failed
  pub all_ended : AllEnded before.spans → AllEnded after.spans

finish_status :
    (span : Span) (e : Option GoError) → is_error_status (finish_span span e).status ≡ failures e
unfolding finish_span
finish_status span none = refl
finish_status span (some e) = refl

finish_ended : (span : Span) (e : Option GoError) → (finish_span span e).ended ≡ true
unfolding finish_span
finish_ended span none = refl
finish_ended span (some e) = refl

one_span :
    {D : Type 0} (c : Traced D) (d : D) (span : Span) (e : Option GoError) (failed : ℕ)
    → failures e ≡ failed
    → Adds c failed (record { driver = d; spans = c.spans ++ finish_span span e ∷ [] })
one_span c d span e failed h = record {
  one_more = length-append c.spans (finish_span span e ∷ []);
  errors = count-append c.spans (finish_span span e ∷ []) ∙ omega (arith, finish_status span e);
  all_ended = λ k. AllEnded-append c.spans (finish_span span e ∷ []) k (finish_ended span e, tt);
}

-- The error of a method: the driver's, as a platform error. Its code is that of a database timeout if
-- the deadline of the context is in the chain, else that of an internal database error.
pub data Wrapped (e : GoError) (x : Error) : Type 0 where
  timed_out :
      is_error "context.DeadlineExceeded" e ≡ true
      → cause_of x ≡ caused_by e
      → code_of x ≡ code_timeout_database
      → Wrapped e x
  broken :
      is_error "context.DeadlineExceeded" e ≡ false
      → cause_of x ≡ caused_by e
      → code_of x ≡ code_internal_database
      → Wrapped e x

Wrapped-error :
    (e : GoError) (message : String)
    → (x : Error) × (wrap_error (some e) message ≡ some x) × Wrapped e x
unfolding wrap_error wrap
Wrapped-error e message = elim (Bool-cases (is_error "context.DeadlineExceeded" e)) [
  | inl t ↦
      (error code_timeout_database message (caused_by e) [], ground arith, timed_out t refl refl)
  | inr t ↦
      (error code_internal_database message (caused_by e) [], ground arith, broken t refl refl)
]

module _ {T : Type 0} (on_error : T → T) (message : String) where
  failures-answer : (r : T × Option GoError) → failures (answer on_error message r).1 ≡ failures r.1
  unfolding wrap_error wrap
  failures-answer (v, none) = refl
  failures-answer (v, some e) = elim (Bool-cases (is_error "context.DeadlineExceeded" e)) [
    | inl t ↦ ground arith
    | inr t ↦ ground arith
  ]

module _ {D T : Type 0} (span : Span) (on_error : T → T) (message : String) where
  pub traced-Adds :
      (call : Call D T) (c : Traced D)
      → let r = traced span on_error message call c in Adds c (failures r.0.1) r.1
  unfolding traced
  traced-Adds call c =
      let ((v, e), d) = call c.driver in
      one_span c d span e (failures (answer on_error message (v, e)).1)
        (sym (failures-answer on_error message (v, e)))

module _ {D : Type 0} where
  -- A method without its value, and a call of the driver without its value.
  abbrev pub error_of : {T : Type 0} → (T × Option Error) × Traced D → Option Error × Traced D
  error_of ((value, e), c) = (e, c)

  abbrev pub driver_error : {T : Type 0} → (T × Option GoError) × D → Option GoError × D
  driver_error ((value, e), d) = (e, d)

  -- What a method does with an answer of the driver: no error becomes none, and an error becomes a
  -- platform error and stands in the span, which is ended and the last one of the trace.
  abbrev pub Answers : Traced D → Option GoError × D → Option Error × Traced D → Type 0
  Answers before (none, d) (o, after) =
      (o ≡ none)
      × (after.driver ≡ d)
      × ((span : Span) × (after.spans ≡ before.spans ++ span ∷ [])
          × (span.ended ≡ true)
          × (span.status ≡ ok_status))
  Answers before (some e, d) (o, after) =
      ((x : Error) × (o ≡ some x) × Wrapped e x)
      × (after.driver ≡ d)
      × ((span : Span) × (after.spans ≡ before.spans ++ span ∷ [])
          × (span.ended ≡ true)
          × (span.recorded ≡ e ∷ []))

  -- A method is a call of the driver with a span around it.
  pub data IsTraced (f : Traced D → Option Error × Traced D) (asked : D → Option GoError × D)
      : Type 1 where
    is_traced :
        {T : Type 0} (span : Span) (on_error : T → T) (message : String) (call : Call D T)
        → ((c : Traced D) → f c ≡ error_of (traced span on_error message call c))
        → ((d : D) → asked d ≡ driver_error (call d))
        → IsTraced f asked

  -- What a method with a span around it adds to the trace.
  pub added :
      (f : Traced D → Option Error × Traced D) (asked : D → Option GoError × D) (c : Traced D)
      → IsTraced f asked
      → Adds c (failures (f c).0) (f c).1
  added f asked c (is_traced span on_error message call e a) =
      subst (λ r. Adds c (failures r.0) r.1) (sym (e c)) (traced-Adds span on_error message call c)

  answered-Answers :
      {T : Type 0} (span : Span) (on_error : T → T) (message : String) (c : Traced D)
      (r : (T × Option GoError) × D)
      → Answers c (driver_error r) (
        (answer on_error message r.0).1,
        record { driver = r.1; spans = c.spans ++ ended span r.0 },
      )
  unfolding finish_span
  answered-Answers span on_error message c ((v, none), d) =
      (refl, refl, (finish_span span none, refl, refl, refl))
  answered-Answers span on_error message c ((v, some e), d) =
      (Wrapped-error e message, refl, (finish_span span (some e), refl, refl, refl))

  -- How a method answers.
  pub IsTraced-Answers :
      (f : Traced D → Option Error × Traced D) (asked : D → Option GoError × D) (c : Traced D)
      → IsTraced f asked
      → Answers c (asked c.driver) (f c)
  unfolding traced
  IsTraced-Answers f asked c (is_traced span on_error message call e a) =
      subst (Answers c (asked c.driver)) (sym (e c)) (
        subst (λ r. Answers c r (error_of (traced span on_error message call c))) (sym (a c.driver))
          (answered-Answers span on_error message c (call c.driver)))
