-- ===== src/Chain/Tests.antt =====
-- Chains of two events, and the witness. The hash of a payload is the note of its event.
use proofrail_evidence_api.Prelude.{
  All, String, [], ◌∷◌, ◌≡◌, refl, ◌≢◌, false, str_eq, eq_iff, none, some, Option, arith,
}
use proofrail_evidence_api.Json.{Json, Members, get_member, as_object, as_text}
use proofrail_evidence_api.Evidence.{Codec}
use proofrail_evidence_api.Cases.{ListedEvent, or_empty}
use proofrail_evidence_api.Chain.{genesis, hash_hex, chain_from, build_case_event_chain}
use proofrail_evidence_api.Chain.Tamper.{payloads, chain_head_injective}

program : Unit {0}
unfolding hash_hex chain_from build_case_event_chain get_member
program = tt

abbrev note_of : Option Members → String
note_of none = ""
note_of (some ms) = or_empty (as_text (get_member "note" ms))

abbrev event_note : Json → String
event_note j = elim (as_object (some j)) [
  | none ↦ ""
  | some ms ↦ note_of (as_object (get_member "event" ms))
]

abbrev codec : Codec Json
codec = record {
  sha256_hex = event_note;
  canonical_json_bytes = λ j. j;
  loads = λ j. some j;
  fromisoformat = λ t. none;
}

abbrev opened : ListedEvent
opened = record { ts = 1; actor = "system"; event_type = "screening_created"; note = "h1" }

abbrev closed : ListedEvent
closed = record { ts = 5; actor = "customer"; event_type = "review_decision_recorded"; note = "h2" }

texts_differ : (a b : String) → str_eq a b ≡ false → a ≢ b
texts_differ a b h same = ground (arith, (eq_iff a b).1 same, h)

head_of_two : (build_case_event_chain codec (opened ∷ closed ∷ [])).1 ≡ "h2"
unfolding program
head_of_two = refl

chain_head_injective_example : opened ∷ closed ∷ [] ≡ opened ∷ closed ∷ []
unfolding program
chain_head_injective_example =
    let never : All (λ x. hash_hex codec x ≢ genesis)
        (payloads codec genesis (opened ∷ closed ∷ [])) =
      (texts_differ "h1" genesis refl, (texts_differ "h2" genesis refl, tt)) in
    chain_head_injective codec (opened ∷ closed ∷ []) (opened ∷ closed ∷ [])
      (
        ((λ h. refl), ((λ h. absurd (texts_differ "h1" "h2" refl h)), tt)),
        (((λ h. absurd (texts_differ "h2" "h1" refl h)), ((λ h. refl), tt)), tt),
      )
      never never refl
