-- ===== src/Lifecycle/State.antt =====
-- pkg/lifecycle/state.go: the states and the transition matrix.
use stricklysoft_core.Prelude.{
  ◌≡◌, refl, ◌↔◌, Bool, true, false, String, Option, none, some, List, [], ◌∷◌, arith, ◌==◌, any,
  if◌then◌else◌,
}

-- `type State string`: the seven constants, and any text that is none of them.
pub data State : Type 0 where
  unknown starting running paused stopping stopped failed : State
  unrecognized : String → State

-- `String`
unfoldable pub to_string : State → String
to_string unknown = "unknown"
to_string starting = "starting"
to_string running = "running"
to_string paused = "paused"
to_string stopping = "stopping"
to_string stopped = "stopped"
to_string failed = "failed"
to_string (unrecognized s) = s

-- `Valid`
unfoldable pub valid : State → Bool
valid (unrecognized _) = false
valid _ = true

-- `IsTerminal`
unfoldable pub is_terminal : State → Bool
is_terminal stopped = true
is_terminal failed = true
is_terminal _ = false

-- Go's `==` on states.
unfoldable pub state_eq : State → State → Bool
state_eq unknown unknown = true
state_eq starting starting = true
state_eq running running = true
state_eq paused paused = true
state_eq stopping stopping = true
state_eq stopped stopped = true
state_eq failed failed = true
state_eq (unrecognized s) (unrecognized t) = s == t
state_eq _ _ = false

-- `validTransitions[from]`
unfoldable pub valid_transitions : State → Option (List State)
valid_transitions unknown = some (starting ∷ failed ∷ [])
valid_transitions starting = some (running ∷ failed ∷ stopping ∷ [])
valid_transitions running = some (paused ∷ stopping ∷ failed ∷ [])
valid_transitions paused = some (running ∷ stopping ∷ failed ∷ [])
valid_transitions stopping = some (stopped ∷ failed ∷ [])
valid_transitions stopped = some (starting ∷ [])
valid_transitions failed = some (starting ∷ [])
valid_transitions (unrecognized _) = none

-- `ValidTransition`
unfoldable pub valid_transition : State → State → Bool
unfolding state_eq valid_transitions
valid_transition from to = if state_eq from to then false else elim (valid_transitions from) [
  | none ↦ false
  | some targets ↦ any (λ t. state_eq t to) targets
]

-- The edges of the documented lifecycle diagram.
infix 40 ◌⟶◌
pub data ◌⟶◌ : State → State → Type 0 where
  launch : unknown ⟶ starting
  come_up : starting ⟶ running
  cut_short : starting ⟶ stopping
  suspend : running ⟶ paused
  continue : paused ⟶ running
  halt : running ⟶ stopping
  halt_paused : paused ⟶ stopping
  finish : stopping ⟶ stopped
  restart : stopped ⟶ starting
  recover : failed ⟶ starting
  fail : {s : State} → valid s ≡ true → is_terminal s ≡ false → s ⟶ failed

edge_of : (from to : State) → valid_transition from to ≡ true → from ⟶ to
unfolding valid_transition valid is_terminal
edge_of unknown starting h = launch
edge_of unknown failed h = fail refl refl
edge_of starting running h = come_up
edge_of starting stopping h = cut_short
edge_of starting failed h = fail refl refl
edge_of running paused h = suspend
edge_of running stopping h = halt
edge_of running failed h = fail refl refl
edge_of paused running h = continue
edge_of paused stopping h = halt_paused
edge_of paused failed h = fail refl refl
edge_of stopping stopped h = finish
edge_of stopping failed h = fail refl refl
edge_of stopped starting h = restart
edge_of failed starting h = recover
edge_of _ _ h = ground arith

of_edge : {from to : State} → from ⟶ to → valid_transition from to ≡ true
unfolding valid_transition valid is_terminal
of_edge launch = refl
of_edge come_up = refl
of_edge cut_short = refl
of_edge suspend = refl
of_edge continue = refl
of_edge halt = refl
of_edge halt_paused = refl
of_edge finish = refl
of_edge restart = refl
of_edge recover = refl
of_edge (fail {s} v t) = fails s v t
  where
    fails : (s : State) → valid s ≡ true → is_terminal s ≡ false → valid_transition s failed ≡ true
    fails unknown v t = refl
    fails starting v t = refl
    fails running v t = refl
    fails paused v t = refl
    fails stopping v t = refl
    fails stopped v t = cc
    fails failed v t = cc
    fails (unrecognized x) v t = cc

-- The transition matrix accepts exactly the edges of the diagram: in particular every recognized
-- state that is not terminal may fail, a terminal state can only be started again, no state leads
-- to itself, and no unrecognized state takes part.
pub valid_transition_iff : (from to : State) → (valid_transition from to ≡ true) ↔ (from ⟶ to)
valid_transition_iff from to = (edge_of from to, of_edge)
