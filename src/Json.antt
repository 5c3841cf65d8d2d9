-- ===== src/Json.antt =====
-- JSON values as `json.loads` gives them to ProofRail/service/storage.py, and `dict.get` on them.
-- Numbers are whole and not negative: no other is read here.
use proofrail_evidence_api.Prelude.{
  ℕ, String, Bool, Option, none, some, List, [], ◌∷◌, str_eq, if◌then◌else◌,
}

mutual
  pub data Json : Type 0 where
    null : Json
    boolean : Bool → Json
    number : ℕ → Json
    text : String → Json
    array : Elements → Json
    object : Members → Json

  pub data Elements : Type 0 where
    no_element : Elements
    element : Json → Elements → Elements

  pub data Members : Type 0 where
    no_member : Members
    member : String → Json → Members → Members

-- `d.get(k)` on a dict, `none` for a missing key
unfoldable pub get_member : String → Members → Option Json
get_member k no_member = none
get_member k (member j v ms) = if str_eq j k then some v else get_member k ms

-- `isinstance(x, str)`
abbrev pub as_text : Option Json → Option String
as_text (some (text s)) = some s
as_text (some null) = none
as_text (some (boolean b)) = none
as_text (some (number n)) = none
as_text (some (array es)) = none
as_text (some (object ms)) = none
as_text none = none

-- `isinstance(x, dict)`
abbrev pub as_object : Option Json → Option Members
as_object (some (object ms)) = some ms
as_object (some null) = none
as_object (some (boolean b)) = none
as_object (some (number n)) = none
as_object (some (text s)) = none
as_object (some (array es)) = none
as_object none = none

-- `isinstance(x, list)`
abbrev pub as_array : Option Json → Option Elements
as_array (some (array es)) = some es
as_array (some null) = none
as_array (some (boolean b)) = none
as_array (some (number n)) = none
as_array (some (text s)) = none
as_array (some (object ms)) = none
as_array none = none

-- `[s] if s else []`: a text that is there and not empty
abbrev pub truthy_text : Option String → List String
truthy_text none = []
truthy_text (some s) = if str_eq s "" then [] else s ∷ []
