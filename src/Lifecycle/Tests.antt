-- ===== src/Lifecycle/Tests.antt =====
-- Runs of pkg/lifecycle on small inputs, and the theorems at concrete inputs.
use stricklysoft_core.Prelude.{
  lookup, insert_all, insert, ◌≡◌, refl, true, false, none, some, [], ◌∷◌, ◌↔◌,
}
use stricklysoft_core.Errors.{plain}
use stricklysoft_core.Errors.Results.{ok}
use stricklysoft_core.Lifecycle.State.{
  unknown, starting, running, paused, failed, valid_transition, ◌⟶◌, state_eq, valid_transition_iff,
}
use stricklysoft_core.Lifecycle.Capability.{Capability, validate_capability, clone, copy_metadata}
use stricklysoft_core.Lifecycle.Agent.{Env, Hook, start, set_state, run_hook, notify}
use stricklysoft_core.Lifecycle.Agent.Contract.{start_method, contract, run, summary, run-contract}
use stricklysoft_core.Lifecycle.Interleaving.{
  Log, recorder, Agent, System, Step, enter, Move, call, set, Reach, here, next, perform, entry,
}
use stricklysoft_core.Lifecycle.Interleaving.History.{IsObserved, Reach-IsObserved}
use stricklysoft_core.Lifecycle.Interleaving.Race.{IsCleared, Reach-IsCleared, resume_race}
use stricklysoft_core.Lifecycle.Interleaving.Settles.{all_returned, Reach-settles}
use stricklysoft_core.Lifecycle.Builder.{BaseAgentBuilder, build, build_capabilities, agent_of}
use stricklysoft_core.Lifecycle.Builder.Outcome.{Built, build_lem}

valid_transition_iff_example : (valid_transition paused running ≡ true) ↔ (paused ⟶ running)
valid_transition_iff_example = valid_transition_iff paused running

-- The clock stands still and no context is canceled.
abbrev still : Env Log (Unit {0})
still = record { ctx_err = λ _ _. none; now = λ _. 5 }

abbrev refuse : Hook Log (Unit {0})
refuse ctx w = (some (plain "no database"), w)

abbrev fresh : Agent
fresh = record {
  id = "a1";
  name = "agent";
  version = "1.0.0";
  state = unknown;
  capabilities = [];
  started_at = none;
  on_start = some refuse;
  on_stop = none;
  on_pause = none;
  on_resume = none;
  state_handlers = recorder true ∷ [];
}

-- The observer panics at each change, and sees both.
start_observed : (start still tt fresh []).world ≡ (unknown, starting) ∷ (starting, failed) ∷ []
unfolding start set_state run_hook notify valid_transition
start_observed = refl

run-contract_example :
    summary still (run still start_method tt fresh [])
    ≡ contract start_method false unknown true none 5
run-contract_example = run-contract still start_method tt fresh []

abbrev idle : System
idle = record { agent = fresh; log = []; clock = 3; hooking = [] }

begun : Reach Step idle (record (perform (entry start_method) idle) { hooking = start_method ∷ [] })
unfolding set_state valid_transition
begun = next here (enter start_method refl)

-- Start announces Starting, and another goroutine fails the agent meanwhile.
abbrev after_start : System
after_start = record (perform (entry start_method) idle) { hooking = start_method ∷ [] }

failed_meanwhile : Reach Move idle (perform (set_state failed) after_start)
unfolding set_state valid_transition
failed_meanwhile = next (next here (call (enter start_method refl))) (set failed)

Reach-IsObserved_example :
    IsObserved true
      (perform (set_state failed) after_start).agent
      (perform (set_state failed) after_start).log
Reach-IsObserved_example =
    Reach-IsObserved true failed_meanwhile (record { observer = refl; chain = refl })

Reach-IsCleared_example : IsCleared (perform (entry start_method) idle).agent
unfolding state_eq
Reach-IsCleared_example = Reach-IsCleared begun refl

-- The hook of Start, which still runs, fails, and a second Start succeeds.
Reach-settles_example :
    let u = all_returned (λ m. true) (start_method ∷ []) after_start in
    Reach Step after_start u
    × (u.hooking ≡ [])
    × ((v : System) × Reach Step u v × (v.agent.state ≡ running))
unfolding set_state valid_transition
Reach-settles_example = Reach-settles begun refl (λ m. true)

abbrev resting : System
resting = record idle { agent = record fresh { state = paused } }

resume_race_example :
    (t : System) × Reach Step resting t
    × (t.agent.state ≡ running)
    × (t.agent.started_at ≡ none)
    × (t.hooking ≡ start_method ∷ [])
resume_race_example = resume_race resting refl

abbrev search_index : Capability
search_index = record {
  name = "search";
  version = "2";
  description = "";
  metadata = ("index", "docs") ∷ [];
}

abbrev drafted : BaseAgentBuilder Log (Unit {0})
drafted = record {
  id = "a1";
  name = "agent";
  version = "1.0.0";
  capabilities = search_index ∷ [];
  on_start = none;
  on_stop = none;
  on_pause = none;
  on_resume = none;
  state_handlers = recorder false ∷ [];
}

build_lem_example : Built drafted (build drafted)
unfolding lookup
build_lem_example = build_lem drafted ((refl, tt), tt)

drafted_builds : build drafted ≡ ok (agent_of drafted (search_index ∷ []))
unfolding build build_capabilities validate_capability clone copy_metadata insert_all insert
drafted_builds = refl
