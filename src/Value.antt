-- ===== src/Value.antt =====
-- Values of Go's `any`, as they come out of JSON: claims and error details are maps of such values.
use stricklysoft_core.Prelude.{Bool, String, Option, none, some, List, [], ◌∷◌, Dict}

mutual
  -- The entries of an object, in some order.
  pub data Members : Type 0 where
    no_members : Members
    member : (name : String) (value : Value) → Members → Members

  pub data Value : Type 0 where
    object : Members → Value
    array : Elements → Value
    string : String → Value
    number : String → Value  -- a float64, by its text; the program never reads one
    bool : Bool → Value
    null : Value

  pub data Elements : Type 0 where
    no_elements : Elements
    element : (value : Value) → Elements → Elements

-- The assertion `v.(string)`.
abbrev pub as_string : Value → Option String
as_string (string s) = some s
as_string _ = none

abbrev pub elements_list : Elements → List Value
elements_list no_elements = []
elements_list (element value values) = value ∷ elements_list values

-- The assertion `v.([]interface{})`.
abbrev pub as_array : Value → Option (List Value)
as_array (array vs) = some (elements_list vs)
as_array _ = none

abbrev pub members_dict : Members → Dict Value
members_dict no_members = []
members_dict (member name value members) = (name, value) ∷ members_dict members

-- The assertion `v.(map[string]any)`.
abbrev pub as_object : Value → Option (Dict Value)
as_object (object fs) = some (members_dict fs)
as_object _ = none

-- The nil map and the empty map are both `[]`.
abbrev pub Claims : Type 0
Claims = Dict Value
