-- ===== src/Auth/Context.antt =====
-- pkg/auth/context.go: the three values that the package keeps in a context, each under a key of its
-- own. A nil identity or call chain is never put there. The trace and span ids are those of
-- OpenTelemetry's span in the context.
use stricklysoft_core.Prelude.{Bool, not, String, Option, some, none, if◌then◌else◌}
use stricklysoft_core.Auth.Identity.{Identity}
use stricklysoft_core.Auth.CallChain.{CallChain}

pub record Context : Type 0 where
  pub identity : Option Identity
  pub caller_service : Option String
  pub call_chain : Option CallChain

-- `ContextWithIdentity`
unfoldable pub context_with_identity : Context → Identity → Context
context_with_identity ctx identity = record ctx { identity = some identity }

-- `IdentityFromContext`
unfoldable pub identity_from_context : Context → Option Identity
identity_from_context ctx = ctx.identity

-- What a call returns, or the text that it panics with.
pub data Outcome {ℓ} (T : Type ℓ) : Type ℓ where
  returned : T → Outcome T
  panicked : String → Outcome T

abbrev or_panic : Option Identity → Outcome Identity
or_panic (some identity) = returned identity
or_panic none =
    panicked "auth: no identity in context; ensure authentication middleware is configured"

-- `MustIdentityFromContext`
unfoldable pub must_identity_from_context : Context → Outcome Identity
unfolding identity_from_context
must_identity_from_context ctx = or_panic (identity_from_context ctx)

-- `ContextWithCallerService`
unfoldable pub context_with_caller_service : Context → String → Context
context_with_caller_service ctx name = record ctx { caller_service = some name }

-- `CallerServiceFromContext`
unfoldable pub caller_service_from_context : Context → Option String
caller_service_from_context ctx = ctx.caller_service

-- `ContextWithCallChain`
unfoldable pub context_with_call_chain : Context → CallChain → Context
context_with_call_chain ctx chain = record ctx { call_chain = some chain }

-- `CallChainFromContext`
unfoldable pub call_chain_from_context : Context → Option CallChain
call_chain_from_context ctx = ctx.call_chain

-- `trace.SpanContext`, with the hexadecimal texts of its ids.
pub record SpanContext : Type 0 where
  pub has_trace_id : Bool
  pub trace_id : String
  pub has_span_id : Bool
  pub span_id : String

-- `trace.SpanFromContext(ctx).SpanContext()` is the first argument.
unfoldable pub trace_id_from_context : (Context → SpanContext) → Context → Option String
trace_id_from_context span_context ctx =
    let span = span_context ctx in if not span.has_trace_id then none else some span.trace_id

unfoldable pub span_id_from_context : (Context → SpanContext) → Context → Option String
span_id_from_context span_context ctx =
    let span = span_context ctx in if not span.has_span_id then none else some span.span_id
