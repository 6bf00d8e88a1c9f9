-- ===== src/Lifecycle/Capability.antt =====
-- pkg/lifecycle/capability.go
use Prim.Native.String.{◌++◌}
use stricklysoft_core.Prelude.{
  String, Option, none, some, List, [], ◌∷◌, ◌==◌, if◌then◌else◌, Dict, insert_all, quote,
}
use stricklysoft_core.Errors.{GoError, platform, new}
use stricklysoft_core.Errors.Codes.{code_validation}
use stricklysoft_core.Errors.Results.{Result, ok, err}

pub record Capability : Type 0 where
  pub name : String
  pub version : String
  pub description : String
  pub metadata : Dict String

-- `var copied; if len(m) > 0 {copied = make(...); for k, v := range m {copied[k] = v } }`
unfoldable pub copy_metadata : Dict String → Dict String
copy_metadata [] = []
copy_metadata (entry ∷ metadata) = insert_all (entry ∷ metadata) []

unfoldable pub new_capability : String → String → String → Dict String → Result Capability
unfolding new copy_metadata
new_capability name version description metadata =
    if name == ""
    then err (platform (new code_validation "lifecycle: capability name must not be empty"))
    else if version == ""
    then err (
        platform (
          new code_validation
            ("lifecycle: capability " ++ quote name ++ " version must not be empty")))
    else ok (record {
      name = name;
      version = version;
      description = description;
      metadata = copy_metadata metadata;
    })

unfoldable pub validate_capability : Capability → Option GoError
unfolding new
validate_capability c =
    if c.name == ""
    then some (platform (new code_validation "lifecycle: capability name must not be empty"))
    else if c.version == ""
    then some (
        platform (
          new code_validation
            ("lifecycle: capability " ++ quote c.name ++ " version must not be empty")))
    else none

-- `Clone`
unfoldable pub clone : Capability → Capability
unfolding copy_metadata
clone c = record {
  name = c.name;
  version = c.version;
  description = c.description;
  metadata = copy_metadata c.metadata;
}

-- `cloneCapabilities` of agent.go; the nil slice and the empty slice are both `[]`
unfoldable pub clone_capabilities : List Capability → List Capability
clone_capabilities [] = []
clone_capabilities (c ∷ caps) = clone c ∷ clone_capabilities caps
