-- ===== src/Lifecycle/Interleaving/Race.antt =====
-- Two critical sections of one call with other calls between them.
use stricklysoft_core.Prelude.{ℕ, ◌≡◌, refl, none, [], ◌∷◌, arith, if◌then◌else◌}
use stricklysoft_core.Lifecycle.State.{running, paused, stopped, failed, state_eq, valid_transition}
use stricklysoft_core.Lifecycle.Agent.{set_state, require_state, set_state_at}
use stricklysoft_core.Lifecycle.Agent.Contract.{
  Method, start_method, stop_method, pause_method, resume_method,
}
use stricklysoft_core.Lifecycle.Interleaving.{
  Log, Agent, System, perform, entry, exit, Step, enter, leave, hook_failed, tick, Reach, here,
  next,
}

module _ (s : System) (p : s.agent.state ≡ paused) where
  -- Resume has looked; then another goroutine stops the agent, and a third begins to start it.
  looked : System
  looked = record (perform (entry resume_method) s) { hooking = resume_method ∷ s.hooking }

  stopping_now : System
  stopping_now = record (perform (entry stop_method) looked) {
    hooking = stop_method ∷ looked.hooking;
  }

  stopped_now : System
  stopped_now = record (perform (exit stop_method s.clock) stopping_now) {
    hooking = looked.hooking;
  }

  starting_now : System
  starting_now = record (perform (entry start_method) stopped_now) {
    hooking = start_method ∷ looked.hooking;
  }

  raced : System
  raced = record (perform (exit resume_method s.clock) starting_now) {
    hooking = start_method ∷ s.hooking;
  }

  -- From any paused agent, calls of Resume, Stop and Start can interleave so that the agent is
  -- Running while the hook of Start has not returned, and with no start time.
  pub resume_race :
      (t : System) × Reach Step s t
      × (t.agent.state ≡ running)
      × (t.agent.started_at ≡ none)
      × (t.hooking ≡ start_method ∷ s.hooking)
  unfolding looked stopping_now stopped_now starting_now raced set_state set_state_at require_state
      valid_transition
  resume_race = (
    raced,
    next
        (next
          (next
            (next (next here (enter resume_method (ground arith)))
              (enter stop_method (ground arith)))
            (leave stop_method [] looked.hooking refl))
          (enter start_method (ground arith)))
        (leave resume_method (start_method ∷ []) s.hooking refl),
    ground arith,
    ground arith,
    refl,
  )

-- A stopped agent has no start time.
abbrev pub IsCleared : Agent → Type 0
IsCleared a = (if state_eq a.state stopped then a.started_at else none) ≡ none

entry-IsCleared :
    (m : Method) (a : Agent) (log : Log) → IsCleared a → IsCleared (entry m a log).agent
unfolding set_state require_state valid_transition
entry-IsCleared start_method a log h = ground arith
entry-IsCleared stop_method a log h = ground arith
entry-IsCleared pause_method a log h = ground arith
entry-IsCleared resume_method a log h = ground arith

exit-IsCleared :
    (m : Method) (now : ℕ) (a : Agent) (log : Log)
    → IsCleared a
    → IsCleared (exit m now a log).agent
unfolding set_state set_state_at valid_transition
exit-IsCleared start_method now a log h = ground arith
exit-IsCleared stop_method now a log h = ground arith
exit-IsCleared pause_method now a log h = ground arith
exit-IsCleared resume_method now a log h = ground arith

failed-IsCleared : (a : Agent) (log : Log) → IsCleared a → IsCleared (set_state failed a log).agent
unfolding set_state valid_transition
failed-IsCleared a log h = ground arith

-- If nobody calls SetState directly, then under every interleaving of Start, Stop, Pause and Resume
-- a stopped agent has no start time.
pub Reach-IsCleared : {s t : System} → Reach Step s t → IsCleared s.agent → IsCleared t.agent
Reach-IsCleared here h = h
Reach-IsCleared {s} (next {t = mid} r (enter m ok)) h =
    entry-IsCleared m mid.agent mid.log (Reach-IsCleared r h)
Reach-IsCleared {s} (next {t = mid} r (leave m before after e)) h =
    exit-IsCleared m mid.clock mid.agent mid.log (Reach-IsCleared r h)
Reach-IsCleared {s} (next {t = mid} r (hook_failed m before after e)) h =
    failed-IsCleared mid.agent mid.log (Reach-IsCleared r h)
Reach-IsCleared (next r (tick d)) h = Reach-IsCleared r h
