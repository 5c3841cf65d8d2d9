-- ===== src/Keys/Resolve.antt =====
-- Which keys resolve: those that were created and not revoked.
use proofrail_evidence_api.Prelude.{
  ap, ℕ, String, true, false, Option, none, some, List, [], ◌∷◌, ◌++◌, ◌≡◌, refl, sym, ◌∙◌, arith,
  str_eq, eq_iff, eq_refl, find?, any, All, Bool-cases, Option-cases, inl, inr,
}
use proofrail_evidence_api.Table.{update_where, All-update_where}
use proofrail_evidence_api.Audit.{AuditEvent}
use proofrail_evidence_api.Keys.{
  ApiKey, KeyTables, KeyRequest, clashes, resolves, ensure_customer, create_api_key,
  resolve_api_key, revoke_api_key, create_key, admin_revoke_key,
}
use proofrail_evidence_api.Keys.Revoked.{KeyOp, run, IsRevoked, find?-none, run-IsRevoked}

-- `key_sha256 TEXT NOT NULL UNIQUE`
abbrev pub HasHashes : List ApiKey → Type 0
HasHashes [] = Unit
HasHashes (k ∷ ks) =
    All (λ (d : ApiKey). str_eq d.key_sha256 k.key_sha256 ≡ false) ks × HasHashes ks

others_miss :
    (sha : String) (x : ApiKey) (ks : List ApiKey)
    → All (λ (d : ApiKey). str_eq d.key_sha256 x.key_sha256 ≡ false) ks
    → str_eq x.key_sha256 sha ≡ true
    → All (λ (d : ApiKey). resolves sha d ≡ false) ks
others_miss sha x [] h e = tt
others_miss sha x (d ∷ ks) h e = (
  ground (
    arith,
    h.0,
    e,
    eq_iff x.key_sha256 sha,
    eq_iff d.key_sha256 x.key_sha256,
    eq_iff d.key_sha256 sha,
  ),
  others_miss sha x ks h.1 e,
)

-- revoking the key that a hash resolves to
update_where-IsRevoked :
    (sha : String) (k : ApiKey) (ts : ℕ) (ks : List ApiKey)
    → HasHashes ks
    → find? (resolves sha) ks ≡ some k
    → IsRevoked sha (
        update_where
          (λ (d : ApiKey). str_eq d.api_key_id k.api_key_id)
          (λ d. record d { revoked_at = some ts })
          ks)
unfolding update_where
update_where-IsRevoked sha k ts [] unique h = ground (arith, h)
update_where-IsRevoked sha k ts (x ∷ ks) unique h =
    let hit = λ (d : ApiKey). str_eq d.api_key_id k.api_key_id in
    let mark = λ (d : ApiKey). record d { revoked_at = some ts } in
    elim (Bool-cases (str_eq x.key_sha256 sha)) [
      | inl e ↦ (
        ground (arith, e),
        (
          ground (arith, e, h, eq_refl x.api_key_id),
          All-update_where (λ (d : ApiKey). resolves sha d ≡ false)
              (λ (d : ApiKey). resolves sha d ≡ false) hit mark (λ d e k. ground arith) (λ d e k. k)
              ks (others_miss sha x ks unique.0 e),
        ),
      )
      | inr e ↦
          let rest = update_where-IsRevoked sha k ts ks unique.1 (ground (arith, h, e)) in
          (ground (arith, e, rest.0), (ground (arith, e), rest.1))
    ]

admin_revoke_key-IsRevoked :
    (sha : String) (k : ApiKey) (id : String) (now : ℕ) (request_id : Option String)
    (s : KeyTables × List AuditEvent)
    → k.api_key_id ≡ id
    → IsRevoked sha (
        update_where
          (λ (d : ApiKey). str_eq d.api_key_id k.api_key_id)
          (λ d. record d { revoked_at = some now })
          s.0.api_keys)
    → IsRevoked sha (admin_revoke_key id now request_id s).0.api_keys
unfolding admin_revoke_key revoke_api_key
admin_revoke_key-IsRevoked sha k id now request_id s named h = rw (sym named) h

-- A revoked key never resolves again, whatever keys are created, rotated or revoked afterwards, if
-- it resolved before and the hashes in the table are distinct.
pub revoked_never_resolves :
    (ops : List KeyOp) (s : KeyTables × List AuditEvent) (sha id customer_id scopes : String)
    (now : ℕ) (request_id : Option String)
    → HasHashes s.0.api_keys
    → resolve_api_key sha s.0 ≡ some (id, customer_id, scopes)
    → resolve_api_key sha (run ops (admin_revoke_key id now request_id s)).0 ≡ none
unfolding resolve_api_key
revoked_never_resolves ops s sha id customer_id scopes now request_id unique h =
    elim (Option-cases (find? (resolves sha) s.0.api_keys)) [
      | inl e ↦ ground (arith, e, h)
      | inr (k, e) ↦
          let named : k.api_key_id ≡ id = ground (arith, e, h) in
          let done = run-IsRevoked sha ops (admin_revoke_key id now request_id s) (
            admin_revoke_key-IsRevoked sha k id now request_id s named
              (update_where-IsRevoked sha k now s.0.api_keys unique e)) in
          ground (
            arith,
            find?-none sha (run ops (admin_revoke_key id now request_id s)).0.api_keys done.1,
          )
    ]

find?-snoc_new :
    (sha : String) (ks : List ApiKey) (k : ApiKey)
    → any (clashes k.api_key_id k.key_sha256) ks ≡ false
    → k.key_sha256 ≡ sha
    → k.revoked_at ≡ none
    → find? (resolves sha) (ks ++ k ∷ []) ≡ some k
find?-snoc_new sha [] k free same live = ground (arith, same, live, eq_iff k.key_sha256 sha)
find?-snoc_new sha (x ∷ ks) k free same live = ground (
  arith,
  free,
  same,
  find?-snoc_new sha ks k,
  eq_iff x.key_sha256 k.key_sha256,
  eq_iff x.key_sha256 sha,
  live,
)

create_api_key_resolves :
    (id customer_id sha scopes : String) (ts : ℕ) (t t' : KeyTables)
    → create_api_key id customer_id sha scopes ts t ≡ some t'
    → resolve_api_key sha t' ≡ some (id, customer_id, scopes)
unfolding create_api_key resolve_api_key
create_api_key_resolves id customer_id sha scopes ts t t' made =
    let row : ApiKey = record {
      api_key_id = id;
      customer_id = customer_id;
      key_sha256 = sha;
      scopes = scopes;
      created_at = ts;
      revoked_at = none;
    } in
    let same : t.api_keys ++ row ∷ [] ≡ t'.api_keys = ground (arith, made) in
    let free : any (clashes id sha) t.api_keys ≡ false = ground (arith, made) in
    let there =
      ap (find? (resolves sha)) (sym same) ∙ find?-snoc_new sha t.api_keys row free refl refl in
    ground (arith, there)

create_key_made :
    (action : String) (r : KeyRequest) (s s' : KeyTables × List AuditEvent)
    → create_key action r s ≡ (true, s')
    → create_api_key r.api_key_id r.customer_id r.key_sha256 r.scopes r.now
        (ensure_customer r.customer_id r.now s.0)
      ≡ some s'.0
unfolding create_key
create_key_made action r s s' h = ground (arith, h)

-- A key that has been created, or rotated in, resolves to its customer and its scopes.
pub create_key_resolves :
    (action : String) (r : KeyRequest) (s s' : KeyTables × List AuditEvent)
    → create_key action r s ≡ (true, s')
    → resolve_api_key r.key_sha256 s'.0 ≡ some (r.api_key_id, r.customer_id, r.scopes)
create_key_resolves action r s s' h =
    create_api_key_resolves r.api_key_id r.customer_id r.key_sha256 r.scopes r.now
      (ensure_customer r.customer_id r.now s.0) s'.0 (create_key_made action r s s' h)
