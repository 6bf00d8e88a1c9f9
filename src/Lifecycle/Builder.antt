-- ===== src/Lifecycle/Builder.antt =====
-- pkg/lifecycle/agent_builder.go. The builder's methods change it in place and return it; here they
-- return the changed builder. Logger and tracer only observe and are left out.
pub mod Outcome
use stricklysoft_core.Prelude.{
  ◌≡◌, refl, ap, Bool, true, false, ◌||◌, inl, inr, String, Option, none, some, List, [], ◌∷◌, ◌++◌,
  ◌==◌, arith, any, if◌then◌else◌, Bool-cases,
}
use stricklysoft_core.Errors.{GoError, platform, new}
use stricklysoft_core.Errors.Codes.{Code, code_validation}
use stricklysoft_core.Errors.Results.{Result, ok, err, ◌>>=◌}
use stricklysoft_core.Errors.Checks.{get_code}
use stricklysoft_core.Lifecycle.State.{unknown}
use stricklysoft_core.Lifecycle.Capability.{
  Capability, validate_capability, clone, clone_capabilities,
}
use stricklysoft_core.Lifecycle.Agent.{StateChangeHandler, Hook, BaseAgent}

pub record BaseAgentBuilder (W C : Type 0) : Type 0 where
  pub id : String
  pub name : String
  pub version : String
  pub capabilities : List Capability
  pub on_start : Option (Hook W C)
  pub on_stop : Option (Hook W C)
  pub on_pause : Option (Hook W C)
  pub on_resume : Option (Hook W C)
  pub state_handlers : List (StateChangeHandler W)

module _ {W C : Type 0} where
  unfoldable pub new_base_agent_builder : String → String → String → BaseAgentBuilder W C
  new_base_agent_builder id name version = record {
    id = id;
    name = name;
    version = version;
    capabilities = [];
    on_start = none;
    on_stop = none;
    on_pause = none;
    on_resume = none;
    state_handlers = [];
  }

  unfoldable pub with_capability : Capability → BaseAgentBuilder W C → BaseAgentBuilder W C
  with_capability cap b = record b { capabilities = b.capabilities ++ cap ∷ [] }

  unfoldable pub with_capabilities : List Capability → BaseAgentBuilder W C → BaseAgentBuilder W C
  with_capabilities caps b = record b { capabilities = b.capabilities ++ caps }

  unfoldable pub with_on_start : Option (Hook W C) → BaseAgentBuilder W C → BaseAgentBuilder W C
  with_on_start hook b = record b { on_start = hook }

  unfoldable pub with_on_stop : Option (Hook W C) → BaseAgentBuilder W C → BaseAgentBuilder W C
  with_on_stop hook b = record b { on_stop = hook }

  unfoldable pub with_on_pause : Option (Hook W C) → BaseAgentBuilder W C → BaseAgentBuilder W C
  with_on_pause hook b = record b { on_pause = hook }

  unfoldable pub with_on_resume : Option (Hook W C) → BaseAgentBuilder W C → BaseAgentBuilder W C
  with_on_resume hook b = record b { on_resume = hook }

  unfoldable pub on_state_change :
      StateChangeHandler W → BaseAgentBuilder W C → BaseAgentBuilder W C
  on_state_change handler b = record b { state_handlers = b.state_handlers ++ handler ∷ [] }

-- The loop of `Build` over the capabilities.
unfoldable pub build_capabilities : List Capability → Result (List Capability)
build_capabilities [] = ok []
build_capabilities (c ∷ caps) =
    let rest = build_capabilities caps in
    elim (validate_capability c) [ some e ↦ err e | none ↦ (do built ← rest; ok (clone c ∷ built)) ]

-- The literal that `Build` returns.
abbrev pub agent_of : {W C : Type 0} → BaseAgentBuilder W C → List Capability → BaseAgent W C
agent_of b caps = record {
  id = b.id;
  name = b.name;
  version = b.version;
  state = unknown;
  capabilities = caps;
  started_at = none;
  on_start = b.on_start;
  on_stop = b.on_stop;
  on_pause = b.on_pause;
  on_resume = b.on_resume;
  state_handlers = b.state_handlers;
}

-- `Build`
unfoldable pub build : {W C : Type 0} → BaseAgentBuilder W C → Result (BaseAgent W C)
unfolding new
build b =
    if b.id == ""
    then err (platform (new code_validation "lifecycle: agent id must not be empty"))
    else if b.name == ""
    then err (platform (new code_validation "lifecycle: agent name must not be empty"))
    else if b.version == ""
    then err (platform (new code_validation "lifecycle: agent version must not be empty"))
    else (do caps ← build_capabilities b.capabilities; ok (agent_of b caps))
