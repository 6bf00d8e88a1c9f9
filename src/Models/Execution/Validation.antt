-- ===== src/Models/Execution/Validation.antt =====
-- What `Validate` accepts, and what `NewExecution` and `Duration` have to do with it.
use stricklysoft_core.Prelude.{
  Option, some, ℕ, refl, String, none, arith, eq_iff, Bool, not, if◌then◌else◌, ◌==◌, ◌-◌, ◌≤◌, ◌<◌,
  ◌≡◌, ◌≢◌, ap, ◌||◌, ◌⊎◌, inl, inr, sym, subst, ◌∙◌, [], ◌↔◌, true, false, ℤ, pos, is_negative,
  max_duration, minus_times,
}
use stricklysoft_core.Errors.{GoError}
use stricklysoft_core.Errors.Results.{ok}
use stricklysoft_core.Models.Execution.{
  Execution, is_zero, valid_status, is_terminal_status, is_terminal_execution, status_pending,
  new_execution, validate, duration, time_or,
}

-- The six statuses.
pub data IsStatus : String → Type 0 where
  pending : IsStatus "pending"
  running : IsStatus "running"
  completed : IsStatus "completed"
  failed : IsStatus "failed"
  canceled : IsStatus "canceled"
  timeout : IsStatus "timeout"

among : (s : String) (word : String) → (s == word) ≡ true → IsStatus word → IsStatus s
among s word h k = subst IsStatus (sym ((eq_iff s word).0 h)) k

either : (a b : Bool) → (a || b) ≡ true → (a ≡ true) ⊎ (b ≡ true)
either true b h = inl refl
either false b h = inr h

valid_status-IsStatus : (s : String) → valid_status s ≡ true → IsStatus s
unfolding valid_status
valid_status-IsStatus s h = elim (either _ _ h) [
  | inr e ↦ among s "timeout" e timeout
  | inl h ↦ elim (either _ _ h) [
    | inr e ↦ among s "canceled" e canceled
    | inl h ↦ elim (either _ _ h) [
      | inr e ↦ among s "failed" e failed
      | inl h ↦ elim (either _ _ h) [
        | inr e ↦ among s "completed" e completed
        | inl h ↦ elim (either _ _ h) [
          | inr e ↦ among s "running" e running
          | inl h ↦ among s "pending" h pending
        ]
      ]
    ]
  ]
]

IsStatus-valid_status : {s : String} → IsStatus s → valid_status s ≡ true
unfolding valid_status
IsStatus-valid_status pending = refl
IsStatus-valid_status running = refl
IsStatus-valid_status completed = refl
IsStatus-valid_status failed = refl
IsStatus-valid_status canceled = refl
IsStatus-valid_status timeout = refl

-- The required fields are there, the status is a known one, no time is zero, no count negative.
pub record IsComplete (e : Execution) : Type 0 where
  pub id_given : e.id ≢ ""
  pub identity_given : e.identity_id ≢ ""
  pub intent_given : e.intent ≢ ""
  pub namespace_given : e.namespace ≢ ""
  pub status_known : IsStatus e.status
  pub started : 0 < e.start_time
  pub created : 0 < e.created_at
  pub updated : 0 < e.updated_at
  pub counted : is_negative e.tokens_used ≡ false

-- A check that has let a value pass, and the checks behind it.
passed :
    (b : Bool) (err : GoError) (rest : Option GoError)
    → (if b then some err else rest) ≡ none
    → (b ≡ false) × (rest ≡ none)
passed b err rest h = ground (arith, h)

text_given : (s : String) → (s == "") ≡ false → s ≢ ""
text_given s h = ground (arith, eq_iff s "", h)

holds : (b : Bool) → not b ≡ false → b ≡ true
holds b h = ground (arith, h)

nonzero : (t : ℕ) → is_zero t ≡ false → 0 < t
nonzero t h = ground (arith, h)

module _ (decimal : ℤ → String) (e : Execution) where
  validated : validate decimal e ≡ none → IsComplete e
  unfolding validate
  validated h =
      let (id, h) = passed (e.id == "") _ _ h in
      let (identity, h) = passed (e.identity_id == "") _ _ h in
      let (intent, h) = passed (e.intent == "") _ _ h in
      let (namespace, h) = passed (e.namespace == "") _ _ h in
      let (known, h) = passed (not (valid_status e.status)) _ _ h in
      let (started, h) = passed (is_zero e.start_time) _ _ h in
      let (created, h) = passed (is_zero e.created_at) _ _ h in
      let (updated, h) = passed (is_zero e.updated_at) _ _ h in
      let (counted, h) = passed (is_negative e.tokens_used) _ _ h in
      record {
        id_given = text_given e.id id;
        identity_given = text_given e.identity_id identity;
        intent_given = text_given e.intent intent;
        namespace_given = text_given e.namespace namespace;
        status_known = valid_status-IsStatus e.status (holds (valid_status e.status) known);
        started = nonzero e.start_time started;
        created = nonzero e.created_at created;
        updated = nonzero e.updated_at updated;
        counted = counted;
      }

  accepted : IsComplete e → validate decimal e ≡ none
  unfolding validate
  accepted h = ground (
    arith,
    eq_iff e.id "",
    eq_iff e.identity_id "",
    eq_iff e.intent "",
    eq_iff e.namespace "",
    h.id_given,
    h.identity_given,
    h.intent_given,
    h.namespace_given,
    IsStatus-valid_status h.status_known,
    h.started,
    h.created,
    h.updated,
    h.counted,
  )

  -- Validate accepts exactly the records whose required fields are given, whose status is one of
  -- the six, whose three times are not zero and whose token count is not negative.
  pub validate_iff : (validate decimal e ≡ none) ↔ IsComplete e
  validate_iff = (validated, accepted)

abbrev draft : String → ℕ → String → String → String → Execution
draft uuid now identity_id intent namespace = record {
  id = uuid;
  identity_id = identity_id;
  intent = intent;
  status = status_pending;
  start_time = now;
  end_time = none;
  pod_name = "";
  namespace = namespace;
  ai_model = "";
  tokens_used = pos 0;
  error_message = "";
  metadata = [];
  created_at = now;
  updated_at = now;
}

module _ (uuid identity_id intent namespace : String) (now : ℕ) (e : Execution)
    (h : new_execution uuid now identity_id intent namespace ≡ ok e) where
  drafted : e ≡ draft uuid now identity_id intent namespace
  unfolding new_execution
  drafted = ground arith

  draft-IsComplete : uuid ≢ "" → 0 < now → IsComplete (draft uuid now identity_id intent namespace)
  unfolding new_execution
  draft-IsComplete u p = record {
    id_given = u;
    identity_given = ground (arith, eq_iff identity_id "");
    intent_given = ground (arith, eq_iff intent "");
    namespace_given = ground (arith, eq_iff namespace "");
    status_known = pending;
    started = p;
    created = p;
    updated = p;
    counted = refl;
  }

  -- What NewExecution returns without an error, with an identifier and a time that are not zero,
  -- is accepted by Validate, is not in a final state, and has a duration of 0 at its creation.
  new_execution-validate :
      (decimal : ℤ → String)
      → uuid ≢ ""
      → 0 < now
      → (validate decimal e ≡ none) × (is_terminal_execution e ≡ false) × (duration e now ≡ pos 0)
  unfolding is_terminal_execution is_terminal_status duration minus_times
  new_execution-validate decimal u p = (
    ap (validate decimal) drafted
        ∙ accepted decimal (draft uuid now identity_id intent namespace) (draft-IsComplete u p),
    ap is_terminal_execution drafted,
    ap (λ x. duration x now) drafted ∙ ground arith,
  )

-- The duration of an execution that has a start time is that from its start to its end, or to now
-- while it has no end, if that lies within 64 bits, and not negative if the end is not before the
-- start.
duration_lem :
    (e : Execution) (now : ℕ)
    → 0 < e.start_time
    → e.start_time ≤ time_or now e.end_time
    → time_or now e.end_time - e.start_time ≤ max_duration
    → duration e now ≡ pos (time_or now e.end_time - e.start_time)
unfolding duration minus_times
duration_lem e now s le b = ground arith
