-- ===== src/Api/Screenings.antt =====
-- `v2_create_screening` of ProofRail/service/app.py, between the two idempotency calls (Idempotency has
-- those). The artifact and its name sets come from the caches, as arguments.
pub mod Pack
pub mod Opened
use Prim.Native.String.{◌++◌ as append}
use proofrail_evidence_api.Prelude.{
  String, Bool, true, ◌&&◌, ◌||◌, Option, none, some, [], ◌∷◌, map, str_eq, if◌then◌else◌,
}
use proofrail_evidence_api.Json.{array, Json, text, number}
use proofrail_evidence_api.Evidence.{put_pack, has_pack}
use proofrail_evidence_api.Caches.{get, set}
use proofrail_evidence_api.Cases.{Screening, insert_screening, upsert_case, insert_case_event}
use proofrail_evidence_api.Audit
use proofrail_evidence_api.Screening.Names.{codes}
use proofrail_evidence_api.Screening.Similarity.{NameSets}
use proofrail_evidence_api.Screening.Decide.{
  Decision, allow, block, review, ScreeningResult, screen_subject_name,
}
use proofrail_evidence_api.Api.{
  Answer, http_error, ApiState, Principal, has_scope, dict, elements, text_or_null,
}
use proofrail_evidence_api.Api.Calls.{
  emit, event_row, case_row, on_tables, finish, ◌then_call◌, Context,
}

pub record Subject : Type 0 where
  pub name : String
  pub country : Option String
  pub dob : Option String
  pub external_id : Option String

-- `subject.model_dump()`
abbrev pub dump_subject : Subject → Json
dump_subject s = dict (
    ("name", text s.name)
    ∷ ("country", text_or_null s.country)
    ∷ ("dob", text_or_null s.dob)
    ∷ ("external_id", text_or_null s.external_id)
    ∷ [])

pub record CreateRequest : Type 0 where
  pub screening_type : String
  pub subject : Subject

pub record Artifact : Type 0 where
  pub list_version : String
  -- `artifact.to_dict()`
  pub fields : Json
  pub name_sets : NameSets

abbrev pub decision_text : Decision → String
decision_text allow = "allow"
decision_text block = "block"
decision_text review = "review"

-- `decision in {"review", "block"}`
abbrev pub case_status : Decision → String
case_status allow = "closed"
case_status block = "needs_review"
case_status review = "needs_review"

module _ {B : Type 0} (x : Context B) where
  abbrev pub to_dict : ScreeningResult → Json
  to_dict r = dict (
      ("decision", text (decision_text r.decision))
      ∷ ("hits", array (elements (map text r.hits)))
      ∷ ("name_norm", text (x.text_of r.name_norm))
      ∷ ("match_type", text r.match_type)
      ∷ ("score", number r.score)
      ∷ ("reason_codes", array (elements (map text r.reason_codes)))
      ∷ [])

  -- the demo's override
  abbrev pub override : String → ScreeningResult → ScreeningResult
  override name r =
      if x.demo_mode
        && (str_eq (x.strip_lower name) "rachel review"
            || str_eq (x.strip_lower name) "review example")
      then record r {
        decision = review;
        match_type = "policy_manual_review";
        score = 50;
        reason_codes = "policy_manual_review" ∷ [];
      }
      else r

  unfoldable pub screen : Artifact → Subject → ScreeningResult
  screen artifact subject =
      override subject.name
        (screen_subject_name (codes subject.name) artifact.name_sets subject.country subject.dob)

  -- `compute_screening_key`
  unfoldable pub compute_screening_key : String → Json → String
  compute_screening_key list_version subject = x.codec.sha256_hex (
      x.codec.canonical_json_bytes
        (dict (("list_version", text list_version) ∷ ("subject", subject) ∷ [])))

  unfoldable pub screen_key_of : Artifact → Principal → Subject → String
  screen_key_of artifact principal subject =
      compute_screening_key artifact.list_version (
        dict (("customer_id", text principal.customer_id) ∷ ("subject", dump_subject subject) ∷ []))

  abbrev pub pack_hash : Json → Json → String
  pack_hash artifact result =
      x.codec.sha256_hex
        (x.codec.canonical_json_bytes (dict (("ingestion", artifact) ∷ ("result", result) ∷ [])))

  abbrev pub new_pack : Artifact → Principal → CreateRequest → String → ScreeningResult → Json
  new_pack artifact principal req screen_key r = dict (
      ("schema_version", text "2")
      ∷ ("created_at", text (x.iso x.now))
      ∷ ("customer_id", text principal.customer_id)
      ∷ ("list_version", text artifact.list_version)
      ∷ ("screen_key", text screen_key)
      ∷ ("ingestion", artifact.fields)
      ∷ (
        "input",
        dict (
            ("subject", dump_subject req.subject)
            ∷ ("screening_type", text req.screening_type)
            ∷ []),
      )
      ∷ ("result", to_dict r)
      ∷ (
        "determinism",
        dict (("canonical_pack_hash", text (pack_hash artifact.fields (to_dict r))) ∷ []),
      )
      ∷ [])

  -- a new pack, which the cache is told of
  abbrev pub store_pack : String → Json → ApiState B → String × ApiState B
  store_pack screen_key pack s =
      let (pack_id, store) = put_pack x.codec pack s.store in
      (pack_id, record s { store = store; screen_cache = set screen_key pack_id s.screen_cache })

  -- the cached pack if the store has it, or a new one
  abbrev pub reuse : String → Json → Option String → ApiState B → String × ApiState B
  reuse screen_key pack none s = store_pack screen_key pack s
  reuse screen_key pack (some cached) s =
      if has_pack cached s.store then (cached, s) else store_pack screen_key pack s

  -- `screen_cache.get` moves a hit to the end
  unfoldable pub pack_for : String → Json → ApiState B → String × ApiState B
  pack_for screen_key pack s =
      let (cached, cache) = get screen_key s.screen_cache in
      reuse screen_key pack cached (record s { screen_cache = cache })

pub record CreateResponse : Type 0 where
  pub screening_id : String
  pub result : ScreeningResult
  pub list_version : String
  pub evidence_pack_id : String

module _ {B : Type 0} (x : Context B) where
  abbrev pub screening_row : Artifact → Principal → String → String → Screening
  screening_row artifact principal screen_key pack_id = record {
    screening_id = screen_key;
    created_at = x.now;
    customer_id = principal.customer_id;
    evidence_pack_id = pack_id;
    list_version = artifact.list_version;
  }

  abbrev pub created_fields : Artifact → String → String → Decision → Json
  created_fields artifact screen_key pack_id d = dict (
      ("screening_id", text screen_key)
      ∷ ("decision", text (decision_text d))
      ∷ ("evidence_pack_id", text pack_id)
      ∷ ("list_version", text artifact.list_version)
      ∷ [])

  -- the calls on the database once the pack is there
  unfoldable pub open_case :
      Artifact → Principal → String → String → Decision → ApiState B → Bool × ApiState B
  open_case artifact principal screen_key pack_id d s =
      (
        true,
        record s {
          tables = insert_screening (screening_row artifact principal screen_key pack_id) s.tables;
        },
      )
      then_call (λ s.
          on_tables
            (upsert_case (case_row x principal screen_key pack_id x.now (case_status d)) s.tables)
            s)
      then_call (λ s.
          on_tables
            (insert_case_event
              (event_row x screen_key "system" "screening_created"
                (append "decision=" (decision_text d)))
              s.tables)
            s)
      then_call emit x principal "screening.created" screen_key
          (created_fields artifact screen_key pack_id d)

  unfoldable pub create_screening :
      Artifact → Principal → CreateRequest → ApiState B → Answer CreateResponse × ApiState B
  create_screening artifact principal req s =
      let r = screen x artifact req.subject in
      let screen_key = screen_key_of x artifact principal req.subject in
      let (pack_id, later) =
        pack_for x screen_key (new_pack x artifact principal req screen_key r) s in
      finish
        (record {
          screening_id = screen_key;
          result = r;
          list_version = artifact.list_version;
          evidence_pack_id = pack_id;
        })
        (open_case artifact principal screen_key pack_id r.decision later)

  unfoldable pub v2_create_screening :
      Artifact → Principal → CreateRequest → ApiState B → Answer CreateResponse × ApiState B
  v2_create_screening artifact principal req s =
      if has_scope "write:screen" principal
      then create_screening artifact principal req s
      else (http_error 403 "missing_scope", s)
