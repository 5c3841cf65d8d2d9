-- ===== src/Admission/Gate.antt =====
-- Who gets past the middleware.
use Prim.Native.String.{◌++◌ as append}
use proofrail_evidence_api.Prelude.{
  ℕ, String, true, false, Option, none, some, List, ◌≡◌, refl, ap, arith, str_eq, Bool-cases,
  Option-cases, inl, inr,
}
use proofrail_evidence_api.RateLimit.{allow}
use proofrail_evidence_api.Keys.Resolve.{HasHashes, revoked_never_resolves}
use proofrail_evidence_api.Keys.Revoked.{KeyOp, run}
use proofrail_evidence_api.Audit.{AuditEvent}
use proofrail_evidence_api.Keys.{admin_revoke_key, resolve_api_key, KeyTables}
use proofrail_evidence_api.Admission.{
  Settings, HttpRequest, Principal, GateState, call_next, is_api, is_admin, refuse_anonymous,
  charge_principal, charge_resolved, host_of, one_token, authenticate, admit,
}

refuse_anonymous_refuses :
    (code : String) (r : HttpRequest) (g : GateState) (o : Option Principal)
    → ¬ ((refuse_anonymous code r g).0 ≡ call_next o)
unfolding refuse_anonymous
refuse_anonymous_refuses code r g o h = ground (arith, h)

charge_principal_same :
    (cfg : Settings) (r : HttpRequest) (p : Principal) (g : GateState) (o : Option Principal)
    → (charge_principal cfg r p g).0 ≡ call_next o
    → o ≡ some p
unfolding charge_principal
charge_principal_same cfg r p g o h = ground (arith, h)

-- the principal of a request is the one that its key resolves to
abbrev pub Authenticated : Settings → HttpRequest → KeyTables → Option Principal → Type 0
Authenticated cfg r keys o =
    (p : Principal) × ((key : String) × ((o ≡ some p)
        × (r.api_key ≡ some key)
        × (resolve_api_key (cfg.hash_api_key key) keys
            ≡ some (p.api_key_id, p.customer_id, p.scopes))))

charge_resolved_sound :
    (cfg : Settings) (r : HttpRequest) (key : String) (g : GateState) (o : Option Principal)
    (keys : KeyTables) (found : Option (String × String × String))
    → r.api_key ≡ some key
    → resolve_api_key (cfg.hash_api_key key) keys ≡ found
    → (charge_resolved cfg r found g).0 ≡ call_next o
    → Authenticated cfg r keys o
unfolding charge_resolved
charge_resolved_sound cfg r key g o keys none has_key resolved h =
    absurd (refuse_anonymous_refuses "invalid_api_key" r g o h)
charge_resolved_sound cfg r key g o keys (some (id, customer_id, scopes)) has_key resolved h =
    let p : Principal = record { customer_id = customer_id; api_key_id = id; scopes = scopes } in
    (p, (key, (charge_principal_same cfg r p g o h, has_key, resolved)))

authenticate_sound :
    (cfg : Settings) (r : HttpRequest) (key : String) (g : GateState) (o : Option Principal)
    → r.api_key ≡ some key
    → (authenticate cfg r key g).0 ≡ call_next o
    → Authenticated cfg r g.keys o
unfolding authenticate
authenticate_sound cfg r key g o has_key h =
    let preauth = allow r.now (append "preauth:" (host_of r)) one_token g.preauth_limiter in
    elim (Option-cases preauth) [
      | inl e ↦ ground (arith, e, h)
      | inr ((allowed, limiter), e) ↦
          let g' = record g { preauth_limiter = limiter } in
          let through : (charge_resolved cfg r (resolve_api_key (cfg.hash_api_key key) g.keys) g').0
              ≡ call_next o =
            ground (arith, e, h) in
          charge_resolved_sound cfg r key g' o g.keys
            (resolve_api_key (cfg.hash_api_key key) g.keys) has_key refl through
    ]

-- A request for an API path that is not an admin path reaches its handler only with a principal, the
-- one that its key resolves to.
pub admit_sound :
    (cfg : Settings) (r : HttpRequest) (g : GateState) (o : Option Principal)
    → is_api r ≡ true
    → is_admin r ≡ false
    → (admit cfg r g).0 ≡ call_next o
    → Authenticated cfg r g.keys o
unfolding admit
admit_sound cfg r g o api plain h = elim (Option-cases r.api_key) [
  | inl e ↦
      absurd (refuse_anonymous_refuses "missing_api_key" r g o (ground (arith, h, api, plain, e)))
  | inr (key, e) ↦ elim (Bool-cases (str_eq key "")) [
    | inl empty ↦
        absurd (
          refuse_anonymous_refuses "missing_api_key" r g o
            (ground (arith, h, api, plain, e, empty)))
    | inr given ↦ authenticate_sound cfg r key g o e (ground (arith, h, api, plain, e, given))
  ]
]

-- After an admin has revoked a key that resolved, no request that carries it reaches the handler
-- of an API path that is not an admin path, whatever keys are created, rotated or revoked in
-- between, if the hashes in the table are distinct.
pub revoked_not_admitted :
    (cfg : Settings) (r : HttpRequest) (g : GateState) (o : Option Principal) (key : String)
    (ops : List KeyOp) (s : KeyTables × List AuditEvent) (id customer_id scopes : String) (now : ℕ)
    (request_id : Option String)
    → is_api r ≡ true
    → is_admin r ≡ false
    → r.api_key ≡ some key
    → HasHashes s.0.api_keys
    → resolve_api_key (cfg.hash_api_key key) s.0 ≡ some (id, customer_id, scopes)
    → ¬ (
        (admit cfg r (record g { keys = (run ops (admin_revoke_key id now request_id s)).0 })).0
        ≡ call_next o)
revoked_not_admitted cfg r g o key ops s id customer_id scopes now request_id api plain has_key
      unique resolved h =
    let revoked = (run ops (admin_revoke_key id now request_id s)).0 in
    let (p, (key', (_, has_key', resolved'))) =
      admit_sound cfg r (record g { keys = revoked }) o api plain h in
    let same : key' ≡ key = ground (arith, has_key, has_key') in
    let gone =
      revoked_never_resolves ops s (cfg.hash_api_key key) id customer_id scopes now request_id
        unique resolved in
    ground (arith, gone, resolved', ap (λ k. resolve_api_key (cfg.hash_api_key k) revoked) same)
