-- ===== src/Models/Execution.antt =====
-- pkg/models/execution.go. A time is a number of nanoseconds since the zero time.
pub mod Validation
mod Tests
use Prim.Native.String.{◌++◌}
use stricklysoft_core.Prelude.{
  ℕ, zero, Bool, true, false, ◌||◌, not, String, Option, none, some, [], ◌==◌, if◌then◌else◌, quote,
  ℤ, pos, negsuc, is_negative, minus_times, leb,
}
use stricklysoft_core.Value.{Claims}
use stricklysoft_core.Errors.{GoError, plain}
use stricklysoft_core.Errors.Results.{Result, ok, err}

-- `type ExecutionStatus string`
abbrev pub ExecutionStatus : Type 0
ExecutionStatus = String

abbrev pub status_pending : ExecutionStatus
status_pending = "pending"

abbrev pub status_running : ExecutionStatus
status_running = "running"

abbrev pub status_completed : ExecutionStatus
status_completed = "completed"

abbrev pub status_failed : ExecutionStatus
status_failed = "failed"

abbrev pub status_canceled : ExecutionStatus
status_canceled = "canceled"

abbrev pub status_timeout : ExecutionStatus
status_timeout = "timeout"

-- `Valid`
unfoldable pub valid_status : ExecutionStatus → Bool
valid_status s =
    s == status_pending
    || s == status_running
    || s == status_completed
    || s == status_failed
    || s == status_canceled
    || s == status_timeout

-- `ExecutionStatus.IsTerminal`
unfoldable pub is_terminal_status : ExecutionStatus → Bool
is_terminal_status s =
    s == status_completed || s == status_failed || s == status_canceled || s == status_timeout

pub record Execution : Type 0 where
  pub id : String
  pub identity_id : String
  pub intent : String
  pub status : ExecutionStatus
  pub start_time : ℕ
  pub end_time : Option ℕ
  pub pod_name : String
  pub namespace : String
  pub ai_model : String
  pub tokens_used : ℤ
  pub error_message : String
  pub metadata : Claims
  pub created_at : ℕ
  pub updated_at : ℕ

-- `NewExecution`; the identifier that `uuid.New` makes and the time are arguments.
unfoldable pub new_execution : String → ℕ → String → String → String → Result Execution
new_execution uuid now identity_id intent namespace =
    if identity_id == ""
    then err (plain "models: execution identityID must not be empty")
    else if intent == ""
    then err (plain "models: execution intent must not be empty")
    else if namespace == ""
    then err (plain "models: execution namespace must not be empty")
    else ok (record {
      id = uuid;
      identity_id = identity_id;
      intent = intent;
      status = status_pending;
      start_time = now;
      end_time = none;
      pod_name = "";
      namespace = namespace;
      ai_model = "";
      tokens_used = pos 0;
      error_message = "";
      metadata = [];
      created_at = now;
      updated_at = now;
    })

abbrev pub is_zero : ℕ → Bool
is_zero t = leb t 0

-- The decimal text of a count is made by fmt; here it is an argument.
unfoldable pub validate : (ℤ → String) → Execution → Option GoError
unfolding valid_status
validate decimal e =
    if e.id == ""
    then some (plain "models: execution ID is required")
    else if e.identity_id == ""
    then some (plain "models: execution identity ID is required")
    else if e.intent == ""
    then some (plain "models: execution intent is required")
    else if e.namespace == ""
    then some (plain "models: execution namespace is required")
    else if not (valid_status e.status)
    then some (plain ("models: invalid execution status " ++ quote e.status))
    else if is_zero e.start_time
    then some (plain "models: execution start time is required")
    else if is_zero e.created_at
    then some (plain "models: execution created_at is required")
    else if is_zero e.updated_at
    then some (plain "models: execution updated_at is required")
    else if is_negative e.tokens_used
    then some (
        plain ("models: execution tokens_used must not be negative, got " ++ decimal e.tokens_used))
    else none

-- `Execution.IsTerminal`
unfoldable pub is_terminal_execution : Execution → Bool
unfolding is_terminal_status
is_terminal_execution e = is_terminal_status e.status

abbrev pub time_or : ℕ → Option ℕ → ℕ
time_or now none = now
time_or now (some t) = t

-- `Duration` at the time `now`
unfoldable pub duration : Execution → ℕ → ℤ
unfolding minus_times
duration e now =
    if is_zero e.start_time then pos 0 else minus_times (time_or now e.end_time) e.start_time
