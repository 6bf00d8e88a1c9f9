-- ===== src/Lifecycle/Interleaving.antt =====
-- pkg/lifecycle/agent.go with many goroutines: the methods as sequences of critical sections. Between
-- two sections of one call the sections of any other calls may run, those of a hook included, for
-- hooks run outside the lock. The observer is a handler that records each change; it may panic.
-- A hook returns, with or without an error: it neither panics nor calls its own agent.
pub mod History
pub mod Race
pub mod Settles
use stricklysoft_core.Prelude.{
  ℕ, ◌+◌, ◌≡◌, Bool, true, false, Option, none, some, List, [], ◌∷◌, ◌++◌, if◌then◌else◌,
}
use stricklysoft_core.Lifecycle.State.{
  State, unknown, starting, running, paused, stopping, stopped, failed,
}
use stricklysoft_core.Lifecycle.Agent.{
  Outcome, returned, panicked, StateChangeHandler, Hook, BaseAgent, Ran, Action, set_state,
  require_state, set_state_at,
}
use stricklysoft_core.Lifecycle.Agent.Contract.{
  Method, start_method, stop_method, pause_method, resume_method,
}

-- The changes that the observer has recorded, oldest first.
abbrev pub Log : Type 0
Log = List (State × State)

abbrev pub recorder : Bool → StateChangeHandler Log
recorder panics from to log =
    if panics then panicked (log ++ (from, to) ∷ []) else returned (log ++ (from, to) ∷ [])

abbrev pub Agent : Type 0
Agent = BaseAgent Log (Unit {0})

-- The shared state: the agent with its observer's log, the clock, and the calls whose hook runs.
pub record System : Type 0 where
  pub agent : Agent
  pub log : Log
  pub clock : ℕ
  pub hooking : List Method

abbrev pub perform : Action Log (Unit {0}) → System → System
perform act s = let r = act s.agent s.log in record s { agent = r.agent; log = r.world }

-- The section in front of a hook: Start and Stop announce a state, Pause and Resume only look.
abbrev pub start_entry : Action Log (Unit {0})
start_entry = set_state starting

abbrev pub stop_entry : Action Log (Unit {0})
stop_entry = set_state stopping

abbrev pub pause_entry : Action Log (Unit {0})
pause_entry = require_state running

abbrev pub resume_entry : Action Log (Unit {0})
resume_entry = require_state paused

abbrev pub entry : Method → Action Log (Unit {0})
entry start_method = start_entry
entry stop_method = stop_entry
entry pause_method = pause_entry
entry resume_method = resume_entry

-- The section behind a hook that has succeeded.
abbrev pub start_exit : ℕ → Action Log (Unit {0})
start_exit now = set_state_at running (λ _. some now)

abbrev pub stop_exit : Action Log (Unit {0})
stop_exit = set_state_at stopped (λ _. none)

abbrev pub pause_exit : Action Log (Unit {0})
pause_exit = set_state paused

abbrev pub resume_exit : Action Log (Unit {0})
resume_exit = set_state running

abbrev pub exit : Method → ℕ → Action Log (Unit {0})
exit start_method now = start_exit now
exit stop_method now = stop_exit
exit pause_method now = pause_exit
exit resume_method now = resume_exit

-- One section of one goroutine. A call that its entry refuses changes nothing and is left out, and
-- so is the look at the state by which Stop may return early.
pub data Step (s : System) : System → Type 0 where
  enter :
      (m : Method)
      → (entry m s.agent s.log).error ≡ none
      → Step s (record (perform (entry m) s) { hooking = m ∷ s.hooking })
  leave :
      (m : Method) (before after : List Method)
      → s.hooking ≡ before ++ m ∷ after
      → Step s (record (perform (exit m s.clock) s) { hooking = before ++ after })
  hook_failed :
      (m : Method) (before after : List Method)
      → s.hooking ≡ before ++ m ∷ after
      → Step s (record (perform (set_state failed) s) { hooking = before ++ after })
  tick : (d : ℕ) → Step s (record s { clock = s.clock + d })

-- The same with calls of the exported `SetState` by anyone.
pub data Move (s : System) : System → Type 0 where
  call : {t : System} → Step s t → Move s t
  set : (to : State) → Move s (perform (set_state to) s)

pub data Reach {ℓ} (R : System → System → Type ℓ) (s : System) : System → Type ℓ where
  here : Reach R s s
  next : {t u : System} → Reach R s t → R t u → Reach R s u
