-- ===== src/Lifecycle/Interleaving/Settles.antt =====
-- No interleaving leaves an agent stuck between two states.
use stricklysoft_core.Prelude.{
  ℕ, ◌≡◌, refl, none, Bool, true, false, ◌||◌, List, [], ◌∷◌, ◌++◌, arith, subst,
}
use stricklysoft_core.Lifecycle.State.{
  State, unknown, starting, running, paused, stopping, stopped, failed, unrecognized,
  valid_transition,
}
use stricklysoft_core.Lifecycle.Agent.{set_state, require_state, set_state_at}
use stricklysoft_core.Lifecycle.Agent.Contract.{
  Method, start_method, stop_method, pause_method, resume_method,
}
use stricklysoft_core.Lifecycle.Interleaving.{
  Log, Agent, System, perform, entry, exit, Step, enter, leave, hook_failed, tick, Reach, here,
  next,
}

abbrev pub is_start : Method → Bool
is_start start_method = true
is_start _ = false

abbrev pub is_stop : Method → Bool
is_stop stop_method = true
is_stop _ = false

abbrev pub any_call : (Method → Bool) → List Method → Bool
any_call test [] = false
any_call test (m ∷ ms) = test m || any_call test ms

-- An agent that is Starting or Stopping has a call of Start or of Stop whose hook runs; its state is a
-- recognized one.
abbrev pub attended : State → List Method → Bool
attended starting ms = any_call is_start ms
attended stopping ms = any_call is_stop ms
attended (unrecognized n) ms = false
attended _ ms = true

abbrev pub IsAttended : System → Type 0
IsAttended s = attended s.agent.state s.hooking ≡ true

any_call-remove :
    (test : Method → Bool) (before after : List Method) (m : Method)
    → any_call test (before ++ m ∷ after) ≡ (test m || any_call test (before ++ after))
any_call-remove test [] after m = refl
any_call-remove test (x ∷ before) after m = ground (arith, any_call-remove test before after m)

entry-attended :
    (m : Method) (a : Agent) (log : Log) (ms : List Method)
    → attended a.state ms ≡ true
    → attended (entry m a log).agent.state (m ∷ ms) ≡ true
unfolding set_state require_state valid_transition
entry-attended start_method a log ms h = ground arith
entry-attended stop_method a log ms h = ground arith
entry-attended pause_method a log ms h = ground arith
entry-attended resume_method a log ms h = ground arith

exit-attended :
    (m : Method) (now : ℕ) (a : Agent) (log : Log) (before after : List Method)
    → attended a.state (before ++ m ∷ after) ≡ true
    → attended (exit m now a log).agent.state (before ++ after) ≡ true
unfolding set_state set_state_at valid_transition
exit-attended start_method now a log before after h =
    ground (arith, any_call-remove is_stop before after start_method)
exit-attended stop_method now a log before after h =
    ground (arith, any_call-remove is_start before after stop_method)
exit-attended pause_method now a log before after h = ground (
  arith,
  any_call-remove is_start before after pause_method,
  any_call-remove is_stop before after pause_method,
)
exit-attended resume_method now a log before after h = ground (
  arith,
  any_call-remove is_start before after resume_method,
  any_call-remove is_stop before after resume_method,
)

failed-attended :
    (a : Agent) (log : Log) (ms ms' : List Method)
    → attended a.state ms ≡ true
    → attended (set_state failed a log).agent.state ms' ≡ true
unfolding set_state valid_transition
failed-attended a log ms ms' h = ground arith

Step-IsAttended : {s t : System} → Step s t → IsAttended s → IsAttended t
Step-IsAttended {s} (enter m ok) h = entry-attended m s.agent s.log s.hooking h
Step-IsAttended {s} (leave m before after e) h =
    exit-attended m s.clock s.agent s.log before after
      (subst (λ ms. attended s.agent.state ms ≡ true) e h)
Step-IsAttended {s} (hook_failed m before after e) h =
    failed-attended s.agent s.log s.hooking (before ++ after) h
Step-IsAttended (tick d) h = h

Reach-IsAttended : {s t : System} → Reach Step s t → IsAttended s → IsAttended t
Reach-IsAttended here h = h
Reach-IsAttended (next r st) h = Step-IsAttended st (Reach-IsAttended r h)

-- The hooks that run return, one after the other, and fail or not as `fails` says.
abbrev pub return_call : Bool → Method → List Method → System → System
return_call true m rest s = record (perform (set_state failed) s) { hooking = rest }
return_call false m rest s = record (perform (exit m s.clock) s) { hooking = rest }

abbrev pub all_returned : (Method → Bool) → List Method → System → System
all_returned fails [] s = s
all_returned fails (m ∷ ms) s = all_returned fails ms (return_call (fails m) m ms s)

Step-return_call :
    (fails : Bool) (m : Method) (rest : List Method) (s : System)
    → s.hooking ≡ m ∷ rest
    → Step s (return_call fails m rest s)
Step-return_call true m rest s e = hook_failed m [] rest e
Step-return_call false m rest s e = leave m [] rest e

hooking-return_call :
    (fails : Bool) (m : Method) (rest : List Method) (s : System)
    → (return_call fails m rest s).hooking ≡ rest
hooking-return_call true m rest s = refl
hooking-return_call false m rest s = refl

Reach-all_returned :
    (fails : Method → Bool) (ms : List Method) {s t : System}
    → Reach Step s t
    → t.hooking ≡ ms
    → Reach Step s (all_returned fails ms t) × ((all_returned fails ms t).hooking ≡ [])
Reach-all_returned fails [] r e = (r, e)
Reach-all_returned fails (m ∷ ms) {t} r e =
    Reach-all_returned fails ms (next r (Step-return_call (fails m) m ms t e))
      (hooking-return_call (fails m) m ms t)

-- The agent is running behind these steps.
abbrev Runs : System → Type 0
Runs s = (t : System) × Reach Step s t × (t.agent.state ≡ running)

-- One call from its entry to its return.
abbrev entered : Method → System → System
entered m s = record (perform (entry m) s) { hooking = m ∷ s.hooking }

through :
    (m : Method) (s : System)
    → (entry m s.agent s.log).error ≡ none
    → (return_call false m s.hooking (entered m s)).agent.state ≡ running
    → Runs s
through m s ok up = (
  return_call false m s.hooking (entered m s),
  next (next here (enter m ok)) (leave m [] s.hooking refl),
  up,
)

-- With no call in flight.
runs : (s : System) (st : State) → s.agent.state ≡ st → attended st [] ≡ true → Runs s
unfolding set_state set_state_at require_state valid_transition
runs s unknown e h = through start_method s (ground arith) (ground arith)
runs s starting e h = absurd (cc)
runs s running e h = (s, here, e)
runs s paused e h = through resume_method s (ground arith) (ground arith)
runs s stopping e h = absurd (cc)
runs s stopped e h = through start_method s (ground arith) (ground arith)
runs s failed e h = through start_method s (ground arith) (ground arith)
runs s (unrecognized n) e h = absurd (cc)

-- From an agent that is Starting or Stopping only while a hook of Start or of Stop runs, whatever calls
-- of Start, Stop, Pause and Resume run on it in any interleaving: when the hooks that still run have
-- returned, whichever of them fail, the agent can be brought to Running.
pub Reach-settles :
    {s t : System}
    → Reach Step s t
    → IsAttended s
    → (fails : Method → Bool)
    → let u = all_returned fails t.hooking t in
      Reach Step t u
      × (u.hooking ≡ [])
      × ((v : System) × Reach Step u v × (v.agent.state ≡ running))
Reach-settles {s} {t} r h fails =
    let u = all_returned fails t.hooking t in
    let (finish, idle) = Reach-all_returned fails t.hooking here refl in
    let attends = Reach-IsAttended finish (Reach-IsAttended r h) in
    (
      finish,
      idle,
      runs u u.agent.state refl (subst (λ ms. attended u.agent.state ms ≡ true) idle attends),
    )
