-- ===== src/Sanctions/Xml/Tests.antt =====
-- Runs of the parsers.
use proofrail_evidence_api.Screening.Names.{is_space, rstrip_char, rstrip, lstrip, strip, codes}
use proofrail_evidence_api.Sanctions.Xml.{
  entry_names, read_children, read_child, match_here, after_prefix, until_quote, whole_names,
  keep_text, get_attrib, iter_all, iter, Element, element, leaf, child, find_iter, parse_eu_names,
  parse_ofac_names,
}
use proofrail_evidence_api.Prelude.{◌≡◌, refl, [], ◌∷◌, none, some}

program : Unit {0}
unfolding iter iter_all get_attrib keep_text whole_names until_quote after_prefix match_here
    find_iter parse_eu_names read_child read_children entry_names parse_ofac_names strip lstrip
    rstrip rstrip_char is_space
program = tt

two_matches :
    find_iter 0 (codes "<a wholeName=\"A B\"/> wholeName=\"\" wholeName=\"C\"")
    ≡ codes "A B" ∷ codes "C" ∷ []
unfolding program
two_matches = refl

abbrev entry : Element
entry = element (codes "{ns}sdnEntry") [] [] (
    child (element (codes "{ns}firstName") [] (codes " Ann ") leaf)
      (child (element (codes "{ns}lastName") [] (codes "Lee") leaf) leaf))

ofac_entry :
    parse_ofac_names (λ b. some (element (codes "sdnList") [] [] (child entry leaf))) (codes "x")
    ≡ codes "Ann Lee" ∷ []
unfolding program
ofac_entry = refl

broken_eu : parse_eu_names (λ b. none) (λ w. w) (codes "wholeName=\"Ann\"<") ≡ codes "Ann" ∷ []
unfolding program
broken_eu = refl
