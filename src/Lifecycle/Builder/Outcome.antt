-- ===== src/Lifecycle/Builder/Outcome.antt =====
-- What `Build` makes of a builder.
use stricklysoft_core.Prelude.{
  Dict, lookup, IsMap, lookup-copy, subst, sym, ◌≡◌, refl, Bool, true, false, ◌||◌, inl, inr,
  String, Option, none, some, List, [], ◌∷◌, ◌==◌, arith, any, Bool-cases,
}
use stricklysoft_core.Errors.{GoError}
use stricklysoft_core.Errors.Codes.{Code, code_validation}
use stricklysoft_core.Errors.Results.{Result, ok, err, ◌>>=◌}
use stricklysoft_core.Errors.Checks.{get_code}
use stricklysoft_core.Lifecycle.State.{unknown}
use stricklysoft_core.Lifecycle.Capability.{
  Capability, validate_capability, copy_metadata, clone, clone_capabilities,
}
use stricklysoft_core.Lifecycle.Agent.{BaseAgent}
use stricklysoft_core.Lifecycle.Builder.{BaseAgentBuilder, build_capabilities, agent_of, build}

abbrev pub is_unnamed : Capability → Bool
is_unnamed c = c.name == "" || c.version == ""

-- Whether Build must refuse.
abbrev pub is_incomplete : {W C : Type 0} → BaseAgentBuilder W C → Bool
is_incomplete b = b.id == "" || b.name == "" || b.version == "" || any is_unnamed b.capabilities

abbrev pub error_code : {A : Type 0} → Result A → Code
error_code (ok a) = ""
error_code (err e) = get_code (some e)

validate_named : (c : Capability) → is_unnamed c ≡ false → validate_capability c ≡ none
unfolding validate_capability
validate_named c h = ground arith

validate_unnamed :
    (c : Capability) → is_unnamed c ≡ true → get_code (validate_capability c) ≡ code_validation
unfolding validate_capability get_code
validate_unnamed c h = ground arith

build_named :
    (caps : List Capability)
    → any is_unnamed caps ≡ false
    → build_capabilities caps ≡ ok (clone_capabilities caps)
unfolding build_capabilities clone_capabilities
build_named [] h = refl
build_named (c ∷ caps) h = ground (arith, validate_named c, build_named caps)

of_bind :
    {A B : Type 0} (r : Result A) (f : A → B)
    → error_code r ≡ code_validation
    → error_code (r >>= λ a. ok (f a)) ≡ code_validation
of_bind (ok a) f e = unfold get_code in cc
of_bind (err x) f e = e

of_check :
    {A : Type 0} (o : Option GoError) (rest : Result A)
    → get_code o ≡ code_validation
    → error_code (elim o [ some e ↦ err e | none ↦ rest ]) ≡ code_validation
of_check none rest h = unfold get_code in cc
of_check (some e) rest h = h

build_unnamed :
    (caps : List Capability)
    → any is_unnamed caps ≡ true
    → error_code (build_capabilities caps) ≡ code_validation
unfolding build_capabilities
build_unnamed [] h = cc
build_unnamed (c ∷ caps) h = elim (Bool-cases (is_unnamed c)) [
  | inl u ↦ of_check (validate_capability c) _ (validate_unnamed c u)
  | inr n ↦
      rw (validate_named c n, build_capabilities, error_code)
        (of_bind (build_capabilities caps) (λ built. clone c ∷ built)
          (build_unnamed caps (ground arith)))
]

refusal :
    {W C : Type 0} (b : BaseAgentBuilder W C)
    → is_incomplete b ≡ true
    → error_code (build b) ≡ code_validation
unfolding build get_code
refusal b h = elim (Bool-cases (any is_unnamed b.capabilities)) [
  | inl u ↦ ground (
    arith,
    of_bind (build_capabilities b.capabilities) (agent_of b) (build_unnamed b.capabilities u),
  )
  | inr n ↦ ground arith
]

complete :
    {W C : Type 0} (b : BaseAgentBuilder W C)
    → is_incomplete b ≡ false
    → build b ≡ ok (agent_of b (clone_capabilities b.capabilities))
unfolding build
complete b h = ground (arith, build_named b.capabilities)

-- The same name, version and description, and the same value under each key of the metadata.
pub record IsCopy (c d : Capability) : Type 0 where
  pub name : d.name ≡ c.name
  pub version : d.version ≡ c.version
  pub description : d.description ≡ c.description
  pub metadata : (key : String) → lookup key d.metadata ≡ lookup key c.metadata

abbrev pub AreCopies : List Capability → List Capability → Type 0
AreCopies [] [] = Unit
AreCopies (c ∷ cs) (d ∷ ds) = IsCopy c d × AreCopies cs ds
AreCopies _ _ = ⊥

-- No metadata has a key twice, as in Go's maps.
abbrev pub HaveMaps : List Capability → Type 0
HaveMaps [] = Unit
HaveMaps (c ∷ cs) = IsMap c.metadata × HaveMaps cs

copied : (key : String) (m : Dict String) → IsMap m → lookup key (copy_metadata m) ≡ lookup key m
unfolding copy_metadata
copied key [] h = refl
copied key (entry ∷ m) h = lookup-copy key (entry ∷ m) h

AreCopies-clone_capabilities :
    (caps : List Capability) → HaveMaps caps → AreCopies caps (clone_capabilities caps)
unfolding clone_capabilities clone
AreCopies-clone_capabilities [] h = tt
AreCopies-clone_capabilities (c ∷ caps) h = (
  record {
    name = refl;
    version = refl;
    description = refl;
    metadata = λ key. copied key c.metadata h.0;
  },
  AreCopies-clone_capabilities caps h.1,
)

-- An agent with what the builder holds, that nobody has started.
pub record IsAgentOf {W C : Type 0} (b : BaseAgentBuilder W C) (a : BaseAgent W C) : Type 0 where
  pub id : a.id ≡ b.id
  pub name : a.name ≡ b.name
  pub version : a.version ≡ b.version
  pub capabilities : AreCopies b.capabilities a.capabilities
  pub on_start : a.on_start ≡ b.on_start
  pub on_stop : a.on_stop ≡ b.on_stop
  pub on_pause : a.on_pause ≡ b.on_pause
  pub on_resume : a.on_resume ≡ b.on_resume
  pub state_handlers : a.state_handlers ≡ b.state_handlers
  pub state : a.state ≡ unknown
  pub started_at : a.started_at ≡ none

agent_of-IsAgentOf :
    {W C : Type 0} (b : BaseAgentBuilder W C)
    → HaveMaps b.capabilities
    → IsAgentOf b (agent_of b (clone_capabilities b.capabilities))
agent_of-IsAgentOf b maps = record {
  id = refl;
  name = refl;
  version = refl;
  capabilities = AreCopies-clone_capabilities b.capabilities maps;
  on_start = refl;
  on_stop = refl;
  on_pause = refl;
  on_resume = refl;
  state_handlers = refl;
  state = refl;
  started_at = refl;
}

-- What Build answers.
abbrev pub Built : {W C : Type 0} → BaseAgentBuilder W C → Result (BaseAgent W C) → Type 0
Built b (err e) = (is_incomplete b ≡ true) × (get_code (some e) ≡ "VAL_001")
Built b (ok a) = (is_incomplete b ≡ false) × IsAgentOf b a

refused-Built :
    {W C : Type 0} (b : BaseAgentBuilder W C) (r : Result (BaseAgent W C))
    → is_incomplete b ≡ true
    → error_code r ≡ code_validation
    → Built b r
refused-Built b (ok a) h e = unfold get_code in cc
refused-Built b (err x) h e = (h, e)

-- Build refuses exactly the builders with an empty id, name or version or with a capability whose
-- name or version is empty, with VAL_001; any other becomes an agent with the builder's id, name,
-- version, hooks and handlers, with copies of its capabilities, the state Unknown and no start time,
-- where no capability's metadata has a key twice.
pub build_lem :
    {W C : Type 0} (b : BaseAgentBuilder W C) → HaveMaps b.capabilities → Built b (build b)
build_lem b maps = elim (Bool-cases (is_incomplete b)) [
  | inl h ↦ refused-Built b (build b) h (refusal b h)
  | inr h ↦ subst (Built b) (sym (complete b h)) (h, agent_of-IsAgentOf b maps)
]
