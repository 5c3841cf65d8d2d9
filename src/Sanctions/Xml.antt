-- ===== src/Sanctions/Xml.antt =====
-- The parsers of ProofRail/sanctions_determinism.py. The tree that `ET.fromstring` returns, or that
-- it raises, is a parameter, and so is the decoding of UTF-8.
mod Tests
use proofrail_evidence_api.Screening.Names.{Codes, codes, codes_eq, strip}
use proofrail_evidence_api.Prelude.{
  map, ◌+◌, leb, not, ℕ, zero, suc, ◌-◌, Bool, true, false, ◌&&◌, ◌||◌, List, [], ◌∷◌, ◌++◌, length,
  drop, Option, none, some, ◌==◌, if◌then◌else◌, str_eq, String,
}

-- `xml.etree.ElementTree.Element`: tag, attributes, text (none or empty are alike) and children
mutual
  pub data Element : Type 0 where
    element : Codes → List (Codes × Codes) → Codes → Elements → Element

  pub data Elements : Type 0 where
    leaf : Elements
    child : Element → Elements → Elements

abbrev pub tag_of : Element → Codes
tag_of (element tag attrib text children) = tag

abbrev pub text_of : Element → Codes
text_of (element tag attrib text children) = text

abbrev pub attrib_of : Element → List (Codes × Codes)
attrib_of (element tag attrib text children) = attrib

abbrev child_list : Elements → List Element
child_list leaf = []
child_list (child e es) = e ∷ child_list es

abbrev pub children_of : Element → List Element
children_of (element tag attrib text children) = child_list children

-- `root.iter()`: the element, then those below it, in document order
unfoldable mutual
  pub iter : Element → List Element
  iter (element tag attrib text children) = element tag attrib text children ∷ iter_all children

  pub iter_all : Elements → List Element
  iter_all leaf = []
  iter_all (child e es) = iter e ++ iter_all es

-- `tag.endswith(suffix)`
abbrev pub ends_with : Codes → Codes → Bool
ends_with s suffix =
    leb (length suffix) (length s) && codes_eq (drop (length s - length suffix) s) suffix

-- `attrib.get(name)`, the empty text if it is not there
unfoldable pub get_attrib : Codes → List (Codes × Codes) → Codes
get_attrib name [] = []
get_attrib name ((key, value) ∷ rest) =
    let later = get_attrib name rest in if codes_eq key name then value else later

-- `if value: names.append(value)`
unfoldable pub keep_text : Codes → List Codes → List Codes
keep_text [] names = names
keep_text (c ∷ s) names = (c ∷ s) ∷ names

unfoldable pub whole_names : List Element → List Codes
whole_names [] = []
whole_names (node ∷ nodes) =
    let rest = whole_names nodes in
    if ends_with (tag_of node) (codes "nameAlias")
    then keep_text (get_attrib (codes "wholeName") (attrib_of node)) rest
    else rest

-- the characters up to the next quote, if there is one
unfoldable pub until_quote : Codes → Option Codes
until_quote [] = none
until_quote (c ∷ s) =
    let rest = until_quote s in
    if c == 34 then some [] else elim rest [ none ↦ none | some w ↦ some (c ∷ w) ]

-- what is left behind a prefix
unfoldable pub after_prefix : Codes → Codes → Option Codes
after_prefix [] s = some s
after_prefix (p ∷ prefix) [] = none
after_prefix (p ∷ prefix) (c ∷ s) =
    let rest = after_prefix prefix s in if p == c then rest else none

-- the group of `wholeName="([^"]+)"` where the bytes begin with a match
unfoldable pub match_here : Codes → Option Codes
match_here s = elim (after_prefix (codes "wholeName=\"") s) [
  | none ↦ none
  | some rest ↦ elim (until_quote rest) [
    | none ↦ none
    | some [] ↦ none
    | some (c ∷ w) ↦ some (c ∷ w)
  ]
]

-- `re.finditer`: the number tells how many bytes the last match still covers
unfoldable pub find_iter : ℕ → Codes → List Codes
find_iter skip [] = []
find_iter (suc skip) (c ∷ s) = find_iter skip s
find_iter zero (c ∷ s) = elim (match_here (c ∷ s)) [
  | none ↦ find_iter zero s
  | some group ↦ group ∷ find_iter (length group + 11) s
]

module _ (fromstring : Codes → Option Element) (decode : Codes → Codes) where
  unfoldable pub parse_eu_names : Codes → List Codes
  parse_eu_names [] = []
  parse_eu_names (b ∷ xml_bytes) =
      let names : List Codes = elim (fromstring (b ∷ xml_bytes)) [
        | none ↦ []
        | some root ↦ whole_names (iter root)
      ] in
      elim names [ [] ↦ map decode (find_iter 0 (b ∷ xml_bytes)) | n ∷ ns ↦ n ∷ ns ]

-- the names of a child loop so far
unfoldable pub read_child : Codes × Codes → Element → Codes × Codes
read_child (first_name, last_name) e =
    if ends_with (tag_of e) (codes "firstName") && not (codes_eq (text_of e) [])
    then (strip (text_of e), last_name)
    else if ends_with (tag_of e) (codes "lastName") && not (codes_eq (text_of e) [])
    then (first_name, strip (text_of e))
    else (first_name, last_name)

unfoldable pub read_children : Codes × Codes → List Element → Codes × Codes
read_children names [] = names
read_children names (e ∷ es) = read_children (read_child names e) es

unfoldable pub entry_names : List Element → List Codes
entry_names [] = []
entry_names (entry ∷ entries) =
    let rest = entry_names entries in
    let read = read_children ([], []) (children_of entry) in
    if ends_with (tag_of entry) (codes "sdnEntry")
    then keep_text (strip (read.0 ++ 32 ∷ read.1)) rest
    else rest

unfoldable pub first_names : List Element → List Codes
first_names [] = []
first_names (node ∷ nodes) =
    let rest = first_names nodes in
    if ends_with (tag_of node) (codes "FIRST_NAME") && not (codes_eq (text_of node) [])
    then strip (text_of node) ∷ rest
    else rest

module _ (fromstring : Codes → Option Element) where
  unfoldable pub parse_ofac_names : Codes → List Codes
  parse_ofac_names [] = []
  parse_ofac_names (b ∷ xml_bytes) = elim (fromstring (b ∷ xml_bytes)) [
    | none ↦ []
    | some root ↦ entry_names (iter root)
  ]

  unfoldable pub parse_un_names : Codes → List Codes
  parse_un_names [] = []
  parse_un_names (b ∷ payload_bytes) = elim (fromstring (b ∷ payload_bytes)) [
    | none ↦ []
    | some root ↦ first_names (iter root)
  ]
