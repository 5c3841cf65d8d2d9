-- ===== src/Api/Decisions/Review.antt =====
-- What `v2_set_review_decision` leaves in the case tables.
use mathlib.Core.Path.{subst}
use Prim.Native.String.{◌++◌ as append}
use proofrail_evidence_api.Api.{ok}
use proofrail_evidence_api.Audit.{insert_audit_event}
use proofrail_evidence_api.Webhooks.Dispatch.Complete.{emit_webhooks_lem}
use proofrail_evidence_api.Api.Screenings.Opened.{insert_case_event-Holds, Holds, upsert_case-Holds}
use proofrail_evidence_api.Webhooks.Dispatch.Emit.{IsNumbered}
use proofrail_evidence_api.Table.{update_where}
use proofrail_evidence_api.Prelude.{
  All, filter, eq_refl, false, any, sym, eq_iff, ◌∙◌, ap, refl, inr, inl, Bool-cases, [], str_eq,
  ◌∷◌, find?, arith, ◌++◌, true, Bool, some, List, ◌≡◌, Any, String,
}
use proofrail_evidence_api.Api.{ok, has_scope, Principal, ApiState}
use proofrail_evidence_api.Cases.{
  CaseEvent, Case, insert_case_event, upsert_case, Screening, ReviewDecision, CaseTables,
  get_screening, has_screening, upsert_screening_review_decision,
}
use proofrail_evidence_api.Api.Calls.{
  next_call, on_outbox, on_tables, webhook_event, finish, event_row, call_some, case_row, Context,
}
use proofrail_evidence_api.Api.Decisions.{
  decision_audit, decided_fields, decision_row, DecisionResponse, record_decision, DecisionRequest,
  decide_screening, v2_set_review_decision,
}

-- the decisions of a screening
abbrev pub decisions_of : String → List ReviewDecision → List ReviewDecision
decisions_of id rows = filter (λ (r : ReviewDecision). str_eq r.screening_id id) rows

-- the decision is among the rows, and no other of its screening
abbrev pub Decided : ReviewDecision → List ReviewDecision → Type 0
Decided d rows =
    Any (λ r. r ≡ d) (decisions_of d.screening_id rows)
    × All (λ r. r ≡ d) (decisions_of d.screening_id rows)

abbrev pub IsDecided : ReviewDecision → CaseTables → Type 0
IsDecided d t = Decided d t.decisions

has_screening-get_screening :
    (id : String) (t : CaseTables) (sc : Screening)
    → get_screening id t ≡ some sc
    → has_screening id t ≡ true
unfolding has_screening get_screening
has_screening-get_screening id t sc h = in_rows t.screenings h
  where
    in_rows :
        (xs : List Screening)
        → find? (λ (s : Screening). str_eq s.screening_id id) xs ≡ some sc
        → any (λ (s : Screening). str_eq s.screening_id id) xs ≡ true
    in_rows [] h = ground (arith, h)
    in_rows (x ∷ xs) h = ground (arith, in_rows xs, h)

module _ {A : Type 0} (d : A) (hit : A → Bool) (mine : hit d ≡ true) where
  -- no row passed the test, and the new one is appended
  appended :
      (xs : List A)
      → any hit xs ≡ false
      → Any (λ r. r ≡ d) (filter hit (xs ++ d ∷ [])) × All (λ r. r ≡ d) (filter hit (xs ++ d ∷ []))
  appended [] h = rw mine (inl refl, (refl, tt))
  appended (x ∷ xs) h =
      let other : hit x ≡ false = ground (arith, h) in rw other (appended xs (ground (arith, h)))

  -- every row that passes the test is replaced
  only : (xs : List A) → All (λ r. r ≡ d) (filter hit (update_where hit (λ r. d) xs))
  unfolding update_where
  only [] = tt
  only (x ∷ xs) = elim (Bool-cases (hit x)) [
    | inl e ↦ rw (e, mine) (refl, only xs)
    | inr e ↦ rw (e, e) (only xs)
  ]

  replaced :
      (xs : List A)
      → any hit xs ≡ true
      → Any (λ r. r ≡ d) (filter hit (update_where hit (λ r. d) xs))
  unfolding update_where
  replaced [] h = absurd (ground (arith, h))
  replaced (x ∷ xs) h = elim (Bool-cases (hit x)) [
    | inl e ↦ rw (e, mine) (inl refl)
    | inr e ↦ rw (e, e) (replaced xs (ground (arith, h, e)))
  ]

-- the decision is stored, and the screenings stay
decision-IsDecided :
    (d : ReviewDecision) (t : CaseTables)
    → has_screening d.screening_id t ≡ true
    → (later : CaseTables) × ((upsert_screening_review_decision d t ≡ some later)
        × ((has_screening d.screening_id later ≡ true) × IsDecided d later))
unfolding upsert_screening_review_decision has_screening
decision-IsDecided d t h =
    let hit = λ (r : ReviewDecision). str_eq r.screening_id d.screening_id in
    elim (Bool-cases (any hit t.decisions)) [
      | inl e ↦ (
        record t { decisions = update_where hit (λ r. d) t.decisions },
        (
          rw (h, e) refl,
          (
            h,
            (
              replaced d hit (eq_refl d.screening_id) t.decisions e,
              only d hit (eq_refl d.screening_id) t.decisions,
            ),
          ),
        ),
      )
      | inr e ↦ (
        record t { decisions = t.decisions ++ d ∷ [] },
        (rw (h, e) refl, (h, appended d hit (eq_refl d.screening_id) t.decisions e)),
      )
    ]

upsert_case-decisions :
    (c : Case) (t later : CaseTables) → upsert_case c t ≡ some later → later.decisions ≡ t.decisions
unfolding upsert_case
upsert_case-decisions c t later h = ground (arith, h)

insert_case_event-decisions :
    (e : CaseEvent) (t later : CaseTables)
    → insert_case_event e t ≡ some later
    → later.decisions ≡ t.decisions
unfolding insert_case_event
insert_case_event-decisions e t later h = ground (arith, h)

module _ {B : Type 0} (x : Context B) (screening_id : String) (principal : Principal)
    (sc : Screening) (req : DecisionRequest) where
  abbrev closed : Case
  closed = case_row x principal screening_id sc.evidence_pack_id sc.created_at "closed"

  -- the case is closed and the decision stored
  abbrev pub Closes : CaseTables → Type 0
  Closes t = Holds closed t × IsDecided (decision_row x screening_id principal sc req) t

  record_decision_lem :
      (s : ApiState B)
      → has_screening screening_id s.tables ≡ true
      → IsNumbered s.outbox.deliveries
      → (later : ApiState B) × ((record_decision x screening_id principal sc req s ≡ (true, later))
          × Closes later.tables)
  unfolding record_decision
  record_decision_lem s h numbered =
      let (t1, (e1, (h1, d1))) =
        decision-IsDecided (decision_row x screening_id principal sc req) s.tables h in
      let (t2, (e2, h2)) = upsert_case-Holds closed t1 h1 in
      let event =
        event_row x screening_id "customer" "review_decision_recorded"
          (append "outcome=" req.outcome) in
      let (t3, (e3, h3)) = insert_case_event-Holds closed event t2 refl h2 in
      let hook =
        webhook_event x principal "screening.review_decision_recorded" screening_id
          (decided_fields x screening_id sc req) in
      let (o, e4) = emit_webhooks_lem hook x.now s.outbox numbered in
      let s1 = record s { tables = t1 } in
      let s2 = record s1 {
        audit = insert_audit_event (decision_audit x screening_id principal sc req) s.audit;
      } in
      let s3 = record s2 { tables = t2 } in
      let s4 = record s2 { tables = t3 } in
      let s5 = record s4 { outbox = o } in
      let kept =
        insert_case_event-decisions event t2 t3 e3 ∙ upsert_case-decisions closed t1 t2 e2 in
      (
        s5,
        (
          next_call _ s4 s5 _
              (next_call _ s3 s4 _
                (next_call _ s2 s3 _
                  (next_call _ s1 s2 _ (call_some s s1 _ (ap (λ r. on_tables r s) e1)) refl)
                  (ap (λ r. on_tables r s2) e2))
                (ap (λ r. on_tables r s3) e3))
              (ap (λ r. on_outbox r s4) e4),
          (h3, subst (Decided (decision_row x screening_id principal sc req)) (sym kept) d1),
        ),
      )

-- If delivery ids are below the next one, a decision on a screening of the principal's customer,
-- with the scope `write:screen`, is accepted; afterwards it is stored, and no other decision of
-- that screening is; and the screening's case is stored, closed, at the clock's time.
pub v2_set_review_decision-Closes :
    {B : Type 0} (x : Context B) (screening_id : String) (principal : Principal)
    (req : DecisionRequest) (sc : Screening) (s : ApiState B)
    → has_scope "write:screen" principal ≡ true
    → get_screening screening_id s.tables ≡ some sc
    → sc.customer_id ≡ principal.customer_id
    → IsNumbered s.outbox.deliveries
    → (resp : DecisionResponse) × (later : ApiState B) × ((v2_set_review_decision x screening_id
            principal req s
          ≡ (ok resp, later))
        × Closes x screening_id principal sc req later.tables)
unfolding v2_set_review_decision decide_screening
v2_set_review_decision-Closes x screening_id principal req sc s scope found owner numbered =
    let (later, (done, closes)) =
      record_decision_lem x screening_id principal sc req s
        (has_screening-get_screening screening_id s.tables sc found) numbered in
    let resp : DecisionResponse = record {
      screening_id = screening_id;
      decided_at = x.now;
      outcome = req.outcome;
      note = req.note;
    } in
    (
      resp,
      later,
      (
        rw (scope, found, (eq_iff sc.customer_id principal.customer_id).1 owner)
            (ap (finish resp) done),
        closes,
      ),
    )
