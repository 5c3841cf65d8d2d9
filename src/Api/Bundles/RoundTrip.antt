-- ===== src/Api/Bundles/RoundTrip.antt =====
-- What the service signs, it verifies.
use proofrail_evidence_api.Api.Packs.{verify_bytes, sign_bytes}
use proofrail_evidence_api.Api.Bundles.{
  key_of, bundle_case, verify_with, dump_bundle, Bundle, sign_with, bundle_of, sign_bundle,
  v2_verify_case_bundle, SignedBundle, v2_get_case_bundle, SigningConfig,
}
use mathlib.Core.Path.{subst}
use proofrail_evidence_api.Prelude.{
  ◌∙◌, sym, ℕ, String, Bool, true, false, Option, none, some, ◌≡◌, refl, ap, str_eq, eq_refl, arith,
  Bool-cases, Option-cases, inl, inr,
}
use proofrail_evidence_api.Json.{Json}
use proofrail_evidence_api.Evidence.{Codec, EvidenceStore}
use proofrail_evidence_api.Cases.{Case, CaseTables, get_case}
use proofrail_evidence_api.Api.{Answer, ok, http_error, crash, Principal, has_scope}

-- the value of an answer that is one
module _ {A : Type 0} where
  abbrev value_or : A → Answer A → A
  value_or a (ok b) = b
  value_or a (http_error status code) = a
  value_or a crash = a

  -- whether an answer is a value
  abbrev is_ok : Answer A → Bool
  is_ok (ok a) = true
  is_ok (http_error status code) = false
  is_ok crash = false

  no_value : (x : Answer A) (a : A) → is_ok x ≡ false → x ≡ ok a → ⊥
  no_value x a h k = ground (arith, h, ap is_ok k)

module _ {B : Type 0} (c : Codec B) (hmac_sha256 : B → B → String) (iso : ℕ → String)
    (cfg : SigningConfig B) where
  abbrev Verifies : SignedBundle → Type 0
  Verifies sb =
      verify_with c hmac_sha256 iso cfg (key_of sb.key_id cfg.signing_keys)
        (dump_bundle iso sb.bundle) sb.signature
      ≡ ok true

  sign_with-Verifies :
      (key_id : String) (secret : B) (b : Bundle) (sb : SignedBundle)
      → key_of key_id cfg.signing_keys ≡ some secret
      → sign_with c hmac_sha256 iso cfg key_id (some secret) b ≡ ok sb
      → Verifies sb
  unfolding sign_with sign_bytes
  sign_with-Verifies key_id secret b sb k h =
      subst Verifies (ap (value_or sb) h) (rw k (unfold verify_bytes in rw (eq_refl _) refl))

  sign_bundle-Verifies :
      (current : Option String) (b : Bundle) (sb : SignedBundle)
      → sign_bundle c hmac_sha256 iso cfg current b ≡ ok sb
      → Verifies sb
  unfolding sign_bundle
  sign_bundle-Verifies none b sb h = absurd (no_value _ sb refl h)
  sign_bundle-Verifies (some key_id) b sb h = elim (Bool-cases (str_eq key_id "")) [
    | inl e ↦
        let k : http_error 503 "signing_not_configured" ≡ ok sb = rw e at h in
        absurd (no_value _ sb refl k)
    | inr e ↦
        let k : sign_with c hmac_sha256 iso cfg key_id (key_of key_id cfg.signing_keys) b ≡ ok sb =
          rw e at h in
        elim (Option-cases (key_of key_id cfg.signing_keys)) [
          | inl missing ↦ absurd (
              no_value (sign_with c hmac_sha256 iso cfg key_id none b) sb (unfold sign_with in refl)
                (ap (λ o. sign_with c hmac_sha256 iso cfg key_id o b) (sym missing) ∙ k))
          | inr (secret, found) ↦
              sign_with-Verifies key_id secret b sb found
                (ap (λ o. sign_with c hmac_sha256 iso cfg key_id o b) (sym found) ∙ k)
        ]
  ]

  bundle_of-Verifies :
      (case_id customer_id : String) (now : ℕ) (case : Case) (tables : CaseTables)
      (pack : Answer Json) (sb : SignedBundle)
      → bundle_of c hmac_sha256 iso cfg case_id customer_id now case tables pack ≡ ok sb
      → Verifies sb
  unfolding bundle_of
  bundle_of-Verifies case_id customer_id now case tables (ok pack) sb h =
      sign_bundle-Verifies cfg.signing_key_current _ sb h
  bundle_of-Verifies case_id customer_id now case tables (http_error status code) sb h =
      absurd (no_value _ sb refl h)
  bundle_of-Verifies case_id customer_id now case tables crash sb h = absurd (no_value _ sb refl h)

  bundle_case-Verifies :
      (case_id : String) (now : ℕ) (principal : Principal) (store : EvidenceStore B)
      (tables : CaseTables) (case : Option Case) (sb : SignedBundle)
      → bundle_case c hmac_sha256 iso cfg case_id now principal store tables case ≡ ok sb
      → Verifies sb
  bundle_case-Verifies case_id now principal store tables none sb h = absurd (no_value _ sb refl h)
  bundle_case-Verifies case_id now principal store tables (some case) sb h =
      elim (Bool-cases (str_eq case.customer_id principal.customer_id)) [
        | inl e ↦ bundle_of-Verifies case_id principal.customer_id now case tables _ sb (rw e at h)
        | inr e ↦
            let k : http_error 404 "case_not_found" ≡ ok sb = rw e at h in
            absurd (no_value _ sb refl k)
      ]

-- A bundle that `v2_get_case_bundle` returns is found valid by `v2_verify_case_bundle` with the same
-- signing keys, given the key id and signature that came with it, for whoever may read evidence.
pub v2_verify_case_bundle-v2_get_case_bundle :
    {B : Type 0} (c : Codec B) (hmac_sha256 : B → B → String) (iso : ℕ → String)
    (cfg : SigningConfig B) (case_id : String) (now : ℕ) (principal reader : Principal)
    (store : EvidenceStore B) (tables : CaseTables) (sb : SignedBundle)
    → v2_get_case_bundle c hmac_sha256 iso cfg case_id now principal store tables ≡ ok sb
    → has_scope "read:evidence" reader ≡ true
    → v2_verify_case_bundle c hmac_sha256 iso cfg
        (dump_bundle iso sb.bundle)
        sb.key_id
        sb.signature
        reader
      ≡ ok true
unfolding v2_get_case_bundle v2_verify_case_bundle
v2_verify_case_bundle-v2_get_case_bundle c hmac iso cfg case_id now principal reader store tables sb
      h scope =
    elim (Bool-cases (has_scope "read:evidence" principal)) [
      | inl e ↦ rw scope (
          bundle_case-Verifies c hmac iso cfg case_id now principal store tables
            (get_case case_id tables) sb (rw e at h))
      | inr e ↦
          let k : http_error 403 "missing_scope" ≡ ok sb = rw e at h in
          absurd (no_value _ sb refl k)
    ]
