-- ===== src/Api/Tests.antt =====
-- Runs of the handlers on a small service: bytes are JSON values, and every hash is one text.
use proofrail_evidence_api.Table.{insert_by, clamp_limit, order_by}
use proofrail_evidence_api.Api.Packs.{get_evidence_pack, sign_bytes}
use proofrail_evidence_api.Chain.{chain_from, build_case_event_chain, genesis}
use proofrail_evidence_api.Screening.Names.{codes}
use proofrail_evidence_api.Prelude.{
  text_lt, map, eq_iff, arith, ◌≢◌, ◌≡◌, refl, [], ◌∷◌, none, some, true, false,
}
use proofrail_evidence_api.Json.{get_member, Json, text, null}
use proofrail_evidence_api.Evidence.{has_pack, get_pack, Codec}
use proofrail_evidence_api.Cases.{list_case_events, Case, Screening, get_case, get_screening}
use proofrail_evidence_api.Jobs.{no_jobs}
use proofrail_evidence_api.OrderedDict
use proofrail_evidence_api.Api.{ok, ok, ApiState, Principal, http_error, dict}
use proofrail_evidence_api.Api.Bundles.{
  key_of, sign_with, sign_bundle, bundle_of, SigningConfig, SignedBundle, dump_bundle,
  v2_get_case_bundle, v2_verify_case_bundle,
}
use proofrail_evidence_api.Api.Bundles.RoundTrip.{v2_verify_case_bundle-v2_get_case_bundle}
use proofrail_evidence_api.Api.CaseHandlers.{
  EventRequest, v2_get_case, v2_add_case_event, new_event,
}
use proofrail_evidence_api.Api.Calls.{Context}
use proofrail_evidence_api.Api.Screenings.{CreateRequest, Artifact}
use proofrail_evidence_api.Api.Decisions.{DecisionRequest, DecisionResponse, v2_set_review_decision}
use proofrail_evidence_api.Api.Decisions.Review.{Closes, v2_set_review_decision-Closes}
use proofrail_evidence_api.Api.Tenants.{
  IsRefused, other_customer-IsRefused, IsWritten, v2_add_case_event-IsWritten,
}
use proofrail_evidence_api.Api.Listing.{absent, show_row}
use proofrail_evidence_api.Api.Listing.Complete.{fetch_all, fetch_all_complete}

abbrev codec : Codec Json
codec = record {
  sha256_hex = λ b. "h";
  canonical_json_bytes = λ j. j;
  loads = λ b. some b;
  fromisoformat = λ s. none;
}

abbrev pack : Json
pack = dict (("customer_id", text "acme") ∷ [])

abbrev case : Case
case = record {
  case_id = "k";
  created_at = 1;
  updated_at = 1;
  customer_id = "acme";
  screening_id = "k";
  evidence_pack_id = "h";
  status = "needs_review";
  assignee = none;
}

abbrev screening : Screening
screening = record {
  screening_id = "k";
  created_at = 1;
  customer_id = "acme";
  evidence_pack_id = "h";
  list_version = "v";
}

abbrev service : ApiState Json
service = record {
  store = record { blobs = []; packs = ("h", pack) ∷ [] };
  tables = record { screenings = screening ∷ []; decisions = []; cases = case ∷ []; events = [] };
  outbox = record { subs = []; deliveries = record { rows = []; next_id = 1 }; jobs = no_jobs };
  audit = [];
  screen_cache = record { max_entries = 4; entries = [] };
}

abbrev reader : Principal
reader = record { customer_id = "acme"; scopes = "read:evidence" ∷ [] }

abbrev writer : Principal
writer = record { customer_id = "acme"; scopes = "write:screen" ∷ "write:cases" ∷ [] }

abbrev stranger : Principal
stranger = record { customer_id = "other"; scopes = "read:evidence" ∷ [] }

abbrev cfg : SigningConfig Json
cfg = record { signing_keys = ("k1", null) ∷ []; signing_key_current = some "k1" }

abbrev signed : SignedBundle
signed = record {
  bundle = record {
    case_id = "k";
    customer_id = "acme";
    created_at = "now";
    evidence_pack = pack;
    case = case;
    events = [];
    chain_head = genesis;
  };
  key_id = "k1";
  signature = "mac";
}

program : Unit {0}
unfolding get_case get_screening v2_get_case_bundle bundle_of sign_bundle sign_with key_of
    sign_bytes get_evidence_pack get_pack has_pack build_case_event_chain chain_from
    list_case_events order_by clamp_limit get_member OrderedDict.get
program = tt

bundle_made :
    v2_get_case_bundle codec
      (λ k b. "mac")
      (λ t. "now")
      cfg
      "k"
      5
      reader
      service.store
      service.tables
    ≡ ok signed
unfolding program
bundle_made = refl

v2_verify_case_bundle-v2_get_case_bundle_example :
    v2_verify_case_bundle codec
      (λ k b. "mac")
      (λ t. "now")
      cfg
      (dump_bundle (λ t. "now") signed.bundle)
      "k1"
      "mac"
      reader
    ≡ ok true
v2_verify_case_bundle-v2_get_case_bundle_example =
    v2_verify_case_bundle-v2_get_case_bundle codec (λ k b. "mac") (λ t. "now") cfg "k" 5 reader
      reader service.store service.tables signed bundle_made refl

case_found : get_case "k" service.tables ≡ some case
unfolding program
case_found = refl

screening_found : get_screening "k" service.tables ≡ some screening
unfolding program
screening_found = refl

abbrev comment : EventRequest
comment = record { event_type = "comment"; note = some "seen"; status = none; assignee = none }

apart : case.customer_id ≢ stranger.customer_id
apart same = ground (arith, (eq_iff "acme" "other").1 same)

other_customer-IsRefused_example :
    IsRefused (v2_get_case codec "k" stranger service)
    × (IsRefused (
          v2_get_case_bundle codec
            (λ k b. "mac")
            (λ t. "now")
            cfg
            "k"
            5
            stranger
            service.store
            service.tables)
        × (IsRefused (v2_add_case_event codec 5 none stranger "k" comment service).0
            × ((v2_add_case_event codec 5 none stranger "k" comment service).1 ≡ service)))
other_customer-IsRefused_example =
    other_customer-IsRefused codec (λ k b. "mac") (λ t. "now") cfg 5 none stranger "k" comment
      service case case_found apart

v2_add_case_event-IsWritten_example :
    ((v2_add_case_event codec 5 none writer "k" comment service).0 ≡ http_error 403 "missing_scope")
    × IsWritten
        (new_event codec 5 none "k" comment)
        (v2_add_case_event codec 5 none writer "k" comment service).1.tables
v2_add_case_event-IsWritten_example =
    v2_add_case_event-IsWritten codec 5 none writer "k" comment service case case_found refl refl
      refl refl

abbrev context : Context Json
context = record {
  codec = codec;
  iso = λ t. "now";
  text_of = λ n. "NAME";
  strip_lower = λ s. s;
  demo_mode = false;
  payload = λ a b c d. "{}";
  now = 5;
  request_id = none;
}

abbrev artifact : Artifact
artifact = record {
  list_version = "v";
  fields = null;
  name_sets = ("EU", codes "ANN LEE" ∷ []) ∷ [];
}

abbrev request : CreateRequest
request = record {
  screening_type = "onboarding";
  subject = record { name = "Ann Lee"; country = none; dob = none; external_id = none };
}

abbrev approve : DecisionRequest
approve = record { outcome = "approve"; note = none }

v2_set_review_decision-Closes_example :
    (resp : DecisionResponse) × (later : ApiState Json) × ((v2_set_review_decision context "k"
          writer approve service
        ≡ (ok resp, later))
      × Closes context "k" writer screening approve later.tables)
v2_set_review_decision-Closes_example =
    v2_set_review_decision-Closes context "k" writer approve screening service refl screening_found
      refl tt

-- two cases, listed in pages of one
abbrev two_cases : ApiState Json
two_cases = record service {
  tables = record service.tables {
    cases = case ∷ record case { case_id = "k2"; updated_at = 2 } ∷ [];
  };
}

listed : Unit {0}
unfolding get_pack order_by insert_by clamp_limit text_lt
listed = tt

fetch_all_complete_example :
    fetch_all codec two_cases reader none none 1 3 absent
    ≡ ok (
        map (show_row codec two_cases) (record case { case_id = "k2"; updated_at = 2 } ∷ case ∷ []))
unfolding listed
fetch_all_complete_example =
    fetch_all_complete codec two_cases reader none none 1 ((refl, tt), (tt, tt)) refl
