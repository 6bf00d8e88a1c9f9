-- ===== src/Lifecycle/Agent/Contract.antt =====
-- What the `Agent` interface promises of Start, Stop, Pause and Resume (its comments in agent.go), as
-- one table, beside the methods of `BaseAgent`.
use stricklysoft_core.Prelude.{
  ℕ, ◌≡◌, Bool, true, false, ◌||◌, Option, none, some, is_some, arith, if◌then◌else◌,
}
use stricklysoft_core.Errors.{wrap}
use stricklysoft_core.Errors.Codes.{Code, code_conflict, code_internal, code_timeout}
use stricklysoft_core.Errors.Checks.{get_code}
use stricklysoft_core.Lifecycle.State.{
  State, unknown, starting, running, paused, stopping, stopped, failed, is_terminal, state_eq,
  valid_transition,
}
use stricklysoft_core.Lifecycle.Agent.{
  Hook, Env, BaseAgent, Ran, Action, notify, set_state, require_state, run_hook, set_state_at,
  start, stop, pause, resume,
}

-- The code of the error ("" for nil), the state and the start time that a method ends with.
pub record Summary : Type 0 where
  pub code : Code
  pub state : State
  pub started_at : Option ℕ

pub data Method : Type 0 where
  start_method stop_method pause_method resume_method : Method

-- The states that a method may be called from.
abbrev pub callable : Method → State → Bool
callable start_method s = state_eq s unknown || state_eq s stopped || state_eq s failed
callable stop_method s = state_eq s running || state_eq s paused || state_eq s starting
callable pause_method s = state_eq s running
callable resume_method s = state_eq s paused

-- The state and the start time after a success.
abbrev pub success : Method → Option ℕ → ℕ → Summary
success start_method t now = record { code = ""; state = running; started_at = some now }
success stop_method t now = record { code = ""; state = stopped; started_at = none }
success pause_method t now = record { code = ""; state = paused; started_at = t }
success resume_method t now = record { code = ""; state = running; started_at = t }

abbrev pub is_stop : Method → Bool
is_stop stop_method = true
is_stop _ = false

-- A canceled context changes nothing, nor does a call from another state; a hook that fails leaves
-- the agent failed; Stop of a stopped or failed agent does nothing, even if the context is canceled.
abbrev pub contract : Method → Bool → State → Bool → Option ℕ → ℕ → Summary
contract m canceled s hook_fails t now =
    if (if is_stop m then is_terminal s else false)
    then record { code = ""; state = s; started_at = t }
    else if canceled
    then record { code = code_timeout; state = s; started_at = t }
    else if callable m s
    then (if hook_fails
        then record { code = code_internal; state = failed; started_at = t }
        else success m t now)
    else record { code = code_conflict; state = s; started_at = t }

module _ {W C : Type 0} (env : Env W C) where
  abbrev pub run : Method → C → Action W C
  run start_method = start env
  run stop_method = stop env
  run pause_method = pause env
  run resume_method = resume env

  abbrev pub hook_of : Method → BaseAgent W C → Option (Hook W C)
  hook_of start_method a = a.on_start
  hook_of stop_method a = a.on_stop
  hook_of pause_method a = a.on_pause
  hook_of resume_method a = a.on_resume

  -- The world that the hook is given: Start and Stop have announced a state before it.
  abbrev pub hook_world : Method → BaseAgent W C → W → W
  hook_world start_method a w = notify a.state_handlers a.state starting w
  hook_world stop_method a w = notify a.state_handlers a.state stopping w
  hook_world _ a w = w

  abbrev pub fails_on : Option (Hook W C) → C → W → Bool
  fails_on none ctx w = false
  fails_on (some hook) ctx w = is_some (hook ctx w).0

  abbrev pub summary : Ran W C → Summary
  summary r = record {
    code = get_code r.error;
    state = r.agent.state;
    started_at = r.agent.started_at;
  }

  start-contract :
      (ctx : C) (a : BaseAgent W C) (w : W)
      → summary (start env ctx a w)
        ≡ contract start_method
            (is_some (env.ctx_err ctx w))
            a.state
            (fails_on a.on_start ctx (hook_world start_method a w))
            a.started_at
            (env.now (start env ctx a w).world)
  unfolding start set_state_at set_state run_hook get_code wrap valid_transition is_terminal
  start-contract ctx a w = ground arith

  stop-contract :
      (ctx : C) (a : BaseAgent W C) (w : W)
      → summary (stop env ctx a w)
        ≡ contract stop_method
            (is_some (env.ctx_err ctx w))
            a.state
            (fails_on a.on_stop ctx (hook_world stop_method a w))
            a.started_at
            (env.now (stop env ctx a w).world)
  unfolding stop set_state_at set_state run_hook get_code wrap valid_transition is_terminal
  stop-contract ctx a w = ground arith

  pause-contract :
      (ctx : C) (a : BaseAgent W C) (w : W)
      → summary (pause env ctx a w)
        ≡ contract pause_method
            (is_some (env.ctx_err ctx w))
            a.state
            (fails_on a.on_pause ctx (hook_world pause_method a w))
            a.started_at
            (env.now (pause env ctx a w).world)
  unfolding pause require_state set_state run_hook get_code wrap valid_transition is_terminal
  pause-contract ctx a w = ground arith

  resume-contract :
      (ctx : C) (a : BaseAgent W C) (w : W)
      → summary (resume env ctx a w)
        ≡ contract resume_method
            (is_some (env.ctx_err ctx w))
            a.state
            (fails_on a.on_resume ctx (hook_world resume_method a w))
            a.started_at
            (env.now (resume env ctx a w).world)
  unfolding resume require_state set_state run_hook get_code wrap valid_transition is_terminal
  resume-contract ctx a w = ground arith

  -- Each of the four methods ends as the contract says, for any hooks, handlers (panicking ones
  -- too), context, state and start time, if no other goroutine acts on the agent meanwhile: its
  -- error has the contract's code, and the agent the contract's state and start time.
  pub run-contract :
      (m : Method) (ctx : C) (a : BaseAgent W C) (w : W)
      → summary (run m ctx a w)
        ≡ contract m
            (is_some (env.ctx_err ctx w))
            a.state
            (fails_on (hook_of m a) ctx (hook_world m a w))
            a.started_at
            (env.now (run m ctx a w).world)
  run-contract start_method ctx a w = start-contract ctx a w
  run-contract stop_method ctx a w = stop-contract ctx a w
  run-contract pause_method ctx a w = pause-contract ctx a w
  run-contract resume_method ctx a w = resume-contract ctx a w
