-- ===== src/Lifecycle/Interleaving/History.antt =====
-- What the observer of an agent sees, whatever the goroutines do.
use stricklysoft_core.Prelude.{
  ℕ, ◌≡◌, refl, ap, ◌∙◌, Bool, Option, none, some, [], ◌∷◌, ◌++◌, arith, Bool-cases, inl, inr,
}
use stricklysoft_core.Errors.{GoError}
use stricklysoft_core.Lifecycle.State.{
  State, unknown, starting, running, paused, stopping, stopped, failed, valid_transition, state_eq,
  ◌⟶◌, valid_transition_iff,
}
use stricklysoft_core.Lifecycle.Agent.{
  Ran, go_on, Action, notify, set_state, require_state, set_state_at,
}
use stricklysoft_core.Lifecycle.Agent.Contract.{
  Method, start_method, stop_method, pause_method, resume_method,
}
use stricklysoft_core.Lifecycle.Interleaving.{
  Log, recorder, Agent, System, entry, exit, Step, enter, leave, hook_failed, tick, Move, call, set,
  Reach, here, next,
}

-- The changes of the log follow one another along edges of the diagram, from one state to another.
abbrev pub IsChain : State → Log → State → Type 0
IsChain from [] to = from ≡ to
IsChain from ((a, b) ∷ log) to = (from ≡ a) × (a ⟶ b) × IsChain b log to

IsChain-snoc :
    {mid to : State} (from : State) (log : Log)
    → IsChain from log mid
    → mid ⟶ to
    → IsChain from (log ++ (mid, to) ∷ []) to
IsChain-snoc from [] h e = (h, e, refl)
IsChain-snoc from ((a, b) ∷ log) h e = (h.0, h.1, IsChain-snoc b log h.2 e)

-- The observer is in place, and its log leads from Unknown to the state that the agent is in.
pub record IsObserved (panics : Bool) (a : Agent) (log : Log) : Type 0 where
  pub observer : a.state_handlers ≡ recorder panics ∷ []
  pub chain : IsChain unknown log a.state

module _ (panics : Bool) where
  notify-recorder :
      (from to : State) (log : Log)
      → notify (recorder panics ∷ []) from to log ≡ log ++ (from, to) ∷ []
  unfolding notify
  notify-recorder from to log = ground arith

  abbrev Keeps : Action Log (Unit {0}) → Type 0
  Keeps act =
      (a : Agent) (log : Log)
      → IsObserved panics a log
      → IsObserved panics (act a log).agent (act a log).world

  set_state-IsObserved : (to : State) → Keeps (set_state to)
  unfolding set_state notify
  set_state-IsObserved to a log h = elim (Bool-cases (valid_transition a.state to)) [
    | inl ok ↦ rw ok (record {
      observer = h.observer;
      chain =
          rw (ap (λ hs. notify hs a.state to log) h.observer ∙ notify-recorder a.state to log)
            (IsChain-snoc unknown log h.chain ((valid_transition_iff a.state to).0 ok));
    })
    | inr bad ↦ rw bad h
  ]

  go_on-IsObserved :
      (e : Option GoError) (r rest : Ran Log (Unit {0}))
      → IsObserved panics r.agent r.world
      → IsObserved panics rest.agent rest.world
      → IsObserved panics (go_on e r rest).agent (go_on e r rest).world
  go_on-IsObserved none r rest h k = k
  go_on-IsObserved (some e) r rest h k = h

  set_state_at-IsObserved : (to : State) (stamp : Log → Option ℕ) → Keeps (set_state_at to stamp)
  unfolding set_state_at
  set_state_at-IsObserved to stamp a log h =
      let r = set_state to a log in
      let k : IsObserved panics r.agent r.world = set_state-IsObserved to a log h in
      go_on-IsObserved r.error r
        (record {
          error = none;
          agent = record (r.agent) { started_at = stamp r.world };
          world = r.world;
        })
        k (record { observer = k.observer; chain = k.chain })

  require_state-IsObserved : (expected : State) → Keeps (require_state expected)
  unfolding require_state
  require_state-IsObserved expected a log h = elim (Bool-cases (state_eq a.state expected)) [
    | inl e ↦ rw e h
    | inr e ↦ rw e h
  ]

  entry-IsObserved : (m : Method) → Keeps (entry m)
  entry-IsObserved start_method = set_state-IsObserved starting
  entry-IsObserved stop_method = set_state-IsObserved stopping
  entry-IsObserved pause_method = require_state-IsObserved running
  entry-IsObserved resume_method = require_state-IsObserved paused

  exit-IsObserved : (m : Method) (now : ℕ) → Keeps (exit m now)
  exit-IsObserved start_method now = set_state_at-IsObserved running (λ _. some now)
  exit-IsObserved stop_method now = set_state_at-IsObserved stopped (λ _. none)
  exit-IsObserved pause_method now = set_state-IsObserved paused
  exit-IsObserved resume_method now = set_state-IsObserved running

  Step-IsObserved :
      {s t : System} → Step s t → IsObserved panics s.agent s.log → IsObserved panics t.agent t.log
  Step-IsObserved {s} (enter m ok) h = entry-IsObserved m s.agent s.log h
  Step-IsObserved {s} (leave m before after e) h = exit-IsObserved m s.clock s.agent s.log h
  Step-IsObserved {s} (hook_failed m before after e) h = set_state-IsObserved failed s.agent s.log h
  Step-IsObserved (tick d) h = h

  Move-IsObserved :
      {s t : System} → Move s t → IsObserved panics s.agent s.log → IsObserved panics t.agent t.log
  Move-IsObserved (call st) h = Step-IsObserved st h
  Move-IsObserved {s} (set to) h = set_state-IsObserved to s.agent s.log h

  -- From an agent whose log leads from Unknown to its state, whatever calls of Start, Stop, Pause,
  -- Resume and SetState run on it, in any interleaving of their critical sections, with hooks that
  -- succeed or fail and an observer that panics or not: the observer sees every change once and in
  -- order, the first one from Unknown, each one from where the one before led to, the last one to
  -- the state that the agent is in, and each along an edge of the documented diagram.
  pub Reach-IsObserved :
      {s t : System}
      → Reach Move s t
      → IsObserved panics s.agent s.log
      → IsObserved panics t.agent t.log
  Reach-IsObserved here h = h
  Reach-IsObserved (next r m) h = Move-IsObserved m (Reach-IsObserved r h)
