-- ===== src/Keys/Revoked.antt =====
-- What keeps a hash from resolving: all operations on keys keep a revoked key revoked, and its hash taken.
use proofrail_evidence_api.Prelude.{
  ℕ, String, true, false, Option, none, some, List, [], ◌∷◌, ◌++◌, ◌≡◌, refl, sym, ◌∙◌, arith,
  str_eq, eq_iff, find?, any, All, All-append, Option-cases, inl, inr,
}
use proofrail_evidence_api.Table.{update_where, All-update_where}
use proofrail_evidence_api.Audit.{AuditEvent}
use proofrail_evidence_api.Keys.{
  ApiKey, KeyTables, KeyRequest, clashes, resolves, ensure_customer, create_api_key, revoke_api_key,
  create_key, admin_create_key, admin_rotate_key, admin_revoke_key,
}

-- the admin operations on keys
pub data KeyOp : Type 0 where
  create rotate : KeyRequest → KeyOp
  revoke : String → ℕ → Option String → KeyOp

abbrev pub apply : KeyOp → KeyTables × List AuditEvent → KeyTables × List AuditEvent
apply (create r) s = (admin_create_key r s).1
apply (rotate r) s = (admin_rotate_key r s).1
apply (revoke api_key_id now request_id) s = admin_revoke_key api_key_id now request_id s

abbrev pub run : List KeyOp → KeyTables × List AuditEvent → KeyTables × List AuditEvent
run [] s = s
run (op ∷ ops) s = run ops (apply op s)

-- the hash is taken, and every key that has it is revoked
abbrev pub IsRevoked : String → List ApiKey → Type 0
IsRevoked sha ks =
    (any (λ (k : ApiKey). str_eq k.key_sha256 sha) ks ≡ true)
    × All (λ (k : ApiKey). resolves sha k ≡ false) ks

pub find?-none :
    (sha : String) (ks : List ApiKey)
    → All (λ (k : ApiKey). resolves sha k ≡ false) ks
    → find? (resolves sha) ks ≡ none
find?-none sha [] h = refl
find?-none sha (k ∷ ks) h = ground (arith, h.0, find?-none sha ks h.1)

any-update_where :
    (sha id : String) (ts : ℕ) (ks : List ApiKey)
    → any
        (λ (k : ApiKey). str_eq k.key_sha256 sha)
        (update_where
          (λ (k : ApiKey). str_eq k.api_key_id id)
          (λ k. record k { revoked_at = some ts })
          ks)
      ≡ any (λ (k : ApiKey). str_eq k.key_sha256 sha) ks
unfolding update_where
any-update_where sha id ts [] = refl
any-update_where sha id ts (k ∷ ks) = ground (arith, any-update_where sha id ts ks)

revoke_api_key-IsRevoked :
    (sha id : String) (ts : ℕ) (t : KeyTables)
    → IsRevoked sha t.api_keys
    → IsRevoked sha (revoke_api_key id ts t).api_keys
unfolding revoke_api_key
revoke_api_key-IsRevoked sha id ts t h = (
  any-update_where sha id ts t.api_keys ∙ h.0,
  All-update_where (λ (k : ApiKey). resolves sha k ≡ false) (λ (k : ApiKey). resolves sha k ≡ false)
      (λ (k : ApiKey). str_eq k.api_key_id id) (λ k. record k { revoked_at = some ts })
      (λ k e x. ground arith) (λ k e x. x) t.api_keys h.1,
)

any_clash :
    (sha id new : String) (ks : List ApiKey)
    → any (λ (k : ApiKey). str_eq k.key_sha256 sha) ks ≡ true
    → str_eq new sha ≡ true
    → any (clashes id new) ks ≡ true
any_clash sha id new [] h e = ground (arith, h)
any_clash sha id new (k ∷ ks) h e = ground (
  arith,
  h,
  e,
  any_clash sha id new ks,
  eq_iff new sha,
  eq_iff k.key_sha256 sha,
  eq_iff k.key_sha256 new,
)

IsRevoked-snoc :
    (sha : String) (ks : List ApiKey) (k : ApiKey)
    → IsRevoked sha ks
    → str_eq k.key_sha256 sha ≡ false
    → IsRevoked sha (ks ++ k ∷ [])
IsRevoked-snoc sha ks k h other = (
  taken ks h.0,
  All-append (λ (k : ApiKey). resolves sha k ≡ false) ks (k ∷ []) h.1 (ground (arith, other), tt),
)
  where
    taken :
        (ks : List ApiKey)
        → any (λ (k : ApiKey). str_eq k.key_sha256 sha) ks ≡ true
        → any (λ (k : ApiKey). str_eq k.key_sha256 sha) (ks ++ k ∷ []) ≡ true
    taken [] h = ground (arith, h)
    taken (x ∷ ks) h = ground (arith, h, taken ks)

create_api_key-IsRevoked :
    (sha id customer_id new scopes : String) (ts : ℕ) (t t' : KeyTables)
    → create_api_key id customer_id new scopes ts t ≡ some t'
    → IsRevoked sha t.api_keys
    → IsRevoked sha t'.api_keys
unfolding create_api_key
create_api_key-IsRevoked sha id customer_id new scopes ts t t' made h =
    let row : ApiKey = record {
      api_key_id = id;
      customer_id = customer_id;
      key_sha256 = new;
      scopes = scopes;
      created_at = ts;
      revoked_at = none;
    } in
    let other : str_eq new sha ≡ false =
      ground (arith, made, any_clash sha id new t.api_keys h.0) in
    let same : t.api_keys ++ row ∷ [] ≡ t'.api_keys = ground (arith, made) in
    rw (sym same) (IsRevoked-snoc sha t.api_keys row h other)

api_keys-ensure_customer :
    (id : String) (now : ℕ) (t : KeyTables) → (ensure_customer id now t).api_keys ≡ t.api_keys
unfolding ensure_customer
api_keys-ensure_customer id now t = ground arith

api_keys-create_key_refused :
    (action : String) (r : KeyRequest) (s : KeyTables × List AuditEvent)
    → create_api_key r.api_key_id r.customer_id r.key_sha256 r.scopes r.now
        (ensure_customer r.customer_id r.now s.0)
      ≡ none
    → (create_key action r s).1.0.api_keys ≡ s.0.api_keys
unfolding create_key
api_keys-create_key_refused action r s e =
    ground (arith, e, api_keys-ensure_customer r.customer_id r.now s.0)

api_keys-create_key_made :
    (action : String) (r : KeyRequest) (s : KeyTables × List AuditEvent) (t : KeyTables)
    → create_api_key r.api_key_id r.customer_id r.key_sha256 r.scopes r.now
        (ensure_customer r.customer_id r.now s.0)
      ≡ some t
    → (create_key action r s).1.0.api_keys ≡ t.api_keys
unfolding create_key
api_keys-create_key_made action r s t e = ground (arith, e)

create_key-IsRevoked :
    (sha action : String) (r : KeyRequest) (s : KeyTables × List AuditEvent)
    → IsRevoked sha s.0.api_keys
    → IsRevoked sha (create_key action r s).1.0.api_keys
create_key-IsRevoked sha action r s h =
    let t' = ensure_customer r.customer_id r.now s.0 in
    elim (Option-cases (create_api_key r.api_key_id r.customer_id r.key_sha256 r.scopes r.now t')) [
      | inl e ↦ rw (api_keys-create_key_refused action r s e) h
      | inr (t'', e) ↦ rw (api_keys-create_key_made action r s t'' e) (
          create_api_key-IsRevoked sha r.api_key_id r.customer_id r.key_sha256 r.scopes r.now t' t''
            e (rw (api_keys-ensure_customer r.customer_id r.now s.0) h))
    ]

pub run-IsRevoked :
    (sha : String) (ops : List KeyOp) (s : KeyTables × List AuditEvent)
    → IsRevoked sha s.0.api_keys
    → IsRevoked sha (run ops s).0.api_keys
unfolding admin_revoke_key
run-IsRevoked sha [] s h = h
run-IsRevoked sha (create r ∷ ops) s h =
    run-IsRevoked sha ops (apply (create r) s) (create_key-IsRevoked sha "key_create" r s h)
run-IsRevoked sha (rotate r ∷ ops) s h =
    run-IsRevoked sha ops (apply (rotate r) s) (create_key-IsRevoked sha "key_rotate" r s h)
run-IsRevoked sha (revoke id now request_id ∷ ops) s h =
    run-IsRevoked sha ops (apply (revoke id now request_id) s)
      (revoke_api_key-IsRevoked sha id now s.0 h)
