-- ===== src/Lifecycle/Agent.antt =====
-- pkg/lifecycle/agent.go: `BaseAgent`. `W` is what hooks and handlers act on, `C` is the type of
-- contexts. A method runs alone here: what other goroutines do meanwhile is in Lifecycle/Interleaving.
pub mod Contract
use Prim.Native.String.{◌++◌}
use stricklysoft_core.Prelude.{
  ℕ, ◌-◌, Bool, not, String, Option, none, some, List, [], ◌∷◌, if◌then◌else◌, quote,
}
use stricklysoft_core.Errors.{GoError, Error, platform, new, wrap}
use stricklysoft_core.Errors.Codes.{code_conflict, code_internal, code_timeout, code_unavailable}
use stricklysoft_core.Lifecycle.State.{
  State, starting, running, paused, stopping, stopped, failed, to_string, is_terminal, state_eq,
  valid_transition,
}
use stricklysoft_core.Lifecycle.Capability.{Capability, clone_capabilities}

-- A handler returns or panics; what it did to the world stays done.
pub data Outcome (W : Type 0) : Type 0 where
  returned : W → Outcome W
  panicked : W → Outcome W

-- `StateChangeHandler`
abbrev pub StateChangeHandler : Type 0 → Type 0
StateChangeHandler W = State → State → W → Outcome W

-- `Hook`; nil is `none`.
abbrev pub Hook : Type 0 → Type 0 → Type 0
Hook W C = C → W → Option GoError × W

-- What the methods read of a context and of the clock: `ctx.Err()` and `time.Now()`.
pub record Env (W C : Type 0) : Type 0 where
  pub ctx_err : C → W → Option GoError
  pub now : W → ℕ

-- The fields that do not observe only; times are nanoseconds.
pub record BaseAgent (W C : Type 0) : Type 0 where
  pub id : String
  pub name : String
  pub version : String
  pub state : State
  pub capabilities : List Capability
  pub started_at : Option ℕ
  pub on_start : Option (Hook W C)
  pub on_stop : Option (Hook W C)
  pub on_pause : Option (Hook W C)
  pub on_resume : Option (Hook W C)
  pub state_handlers : List (StateChangeHandler W)

-- What a method leaves behind: its error, the agent and the world.
pub record Ran (W C : Type 0) : Type 0 where
  pub error : Option GoError
  pub agent : BaseAgent W C
  pub world : W

abbrev pub Action : Type 0 → Type 0 → Type 0
Action W C = BaseAgent W C → W → Ran W C

abbrev pub go_on : {W C : Type 0} → Option GoError → Ran W C → Ran W C → Ran W C
go_on none r next = next
go_on (some e) r next = r

abbrev pub after : {W : Type 0} → Outcome W → W
after (returned w) = w
after (panicked w) = w

-- The loop over the handlers, each call in a deferred recover.
unfoldable pub notify : {W : Type 0} → List (StateChangeHandler W) → State → State → W → W
notify [] from to w = w
notify (h ∷ handlers) from to w = notify handlers from to (after (h from to w))

abbrev pub wrapped_as : Option Error → Option GoError
wrapped_as none = none
wrapped_as (some e) = some (platform e)

module _ {W C : Type 0} where
  infixl 5 ◌>>◌
  -- `if err := m(); err != nil { return err }`, then the rest
  abbrev pub ◌>>◌ : Action W C → Action W C → Action W C
  ◌>>◌ m rest a w = let r = m a w in go_on r.error r (rest r.agent r.world)

  -- `setStateLocked`, and `SetState`, which takes the lock around it
  unfoldable pub set_state : State → Action W C
  unfolding new
  set_state to a w =
      if not (valid_transition a.state to)
      then record {
        error = some (
            platform (
              new code_conflict (
                "lifecycle: invalid state transition from "
                ++ quote (to_string a.state)
                ++ " to "
                ++ quote (to_string to))));
        agent = a;
        world = w;
      }
      else record {
        error = none;
        agent = record a { state = to };
        world = notify a.state_handlers a.state to w;
      }

  -- `requireState`
  unfoldable pub require_state : State → Action W C
  unfolding new
  require_state expected a w =
      if not (state_eq a.state expected)
      then record {
        error = some (
            platform (
              new code_conflict (
                "lifecycle: expected state "
                ++ quote (to_string expected)
                ++ " but agent is in "
                ++ quote (to_string a.state))));
        agent = a;
        world = w;
      }
      else record { error = none; agent = a; world = w }

  -- The hook of a method, which runs outside the lock: if it fails the agent is set to failed, and
  -- an error of that `SetState` is dropped.
  unfoldable pub run_hook : Option (Hook W C) → String → C → Action W C
  unfolding wrap
  run_hook none message ctx a w = record { error = none; agent = a; world = w }
  run_hook (some hook) message ctx a w =
      let (e, w') = hook ctx w in
      let f = set_state failed a w' in
      elim e [
        | none ↦ record { error = none; agent = a; world = w' }
        | some err ↦ record {
          error = wrapped_as (wrap (some err) code_internal message);
          agent = f.agent;
          world = f.world;
        }
      ]

  -- `SetState` and the write of `startedAt` under one lock
  unfoldable pub set_state_at : State → (W → Option ℕ) → Action W C
  set_state_at to stamp a w =
      let r = set_state to a w in
      go_on r.error r (record {
        error = none;
        agent = record (r.agent) { started_at = stamp r.world };
        world = r.world;
      })

  -- `Health`
  unfoldable pub health : BaseAgent W C → Option GoError
  unfolding new
  health a =
      if not (state_eq a.state running)
      then some (
          platform (
            new code_unavailable
              ("lifecycle: agent is not running, current state is " ++ quote (to_string a.state))))
      else none

-- `AgentInfo`
pub record AgentInfo : Type 0 where
  pub id : String
  pub name : String
  pub version : String
  pub state : State
  pub capabilities : List Capability
  pub started_at : Option ℕ
  pub uptime : ℕ

abbrev with_uptime : AgentInfo → Bool → Option ℕ → ℕ → AgentInfo
with_uptime info is_running none now = info
with_uptime info is_running (some t) now =
    if is_running then record info { started_at = some t; uptime = now - t } else info

module _ {W C : Type 0} (env : Env W C) where
  -- `if err := ctx.Err(); err != nil { return Wrap(err, CodeTimeout, message) }`
  unfoldable pub check_context : String → C → Action W C
  unfolding wrap
  check_context message ctx a w = record {
    error = wrapped_as (wrap (env.ctx_err ctx w) code_timeout message);
    agent = a;
    world = w;
  }

  -- `Info`; `time.Since` is 0 here if the clock was set back, where Go reads its monotonic clock
  unfoldable pub info : BaseAgent W C → W → AgentInfo
  info a w =
      with_uptime
        (record {
          id = a.id;
          name = a.name;
          version = a.version;
          state = a.state;
          capabilities = clone_capabilities a.capabilities;
          started_at = none;
          uptime = 0;
        })
        (state_eq a.state running) a.started_at (env.now w)

  unfoldable pub start : C → Action W C
  unfolding check_context set_state_at
  start ctx a =
      (do
        check_context "lifecycle: start canceled before execution" ctx
        set_state starting
        run_hook a.on_start "lifecycle: start hook failed" ctx
        set_state_at running (λ w. some (env.now w)))
        a

  unfoldable pub stop : C → Action W C
  unfolding check_context set_state_at
  stop ctx a w =
      if is_terminal a.state
      then record { error = none; agent = a; world = w }
      else (do
        check_context "lifecycle: stop canceled before execution" ctx
        set_state stopping
        run_hook a.on_stop "lifecycle: stop hook failed" ctx
        set_state_at stopped (λ _. none))
          a w

  unfoldable pub pause : C → Action W C
  unfolding check_context
  pause ctx a =
      (do
        check_context "lifecycle: pause canceled before execution" ctx
        require_state running
        run_hook a.on_pause "lifecycle: pause hook failed" ctx
        set_state paused)
        a

  unfoldable pub resume : C → Action W C
  unfolding check_context
  resume ctx a =
      (do
        check_context "lifecycle: resume canceled before execution" ctx
        require_state paused
        run_hook a.on_resume "lifecycle: resume hook failed" ctx
        set_state running)
        a
