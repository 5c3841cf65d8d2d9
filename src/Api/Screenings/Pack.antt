-- ===== src/Api/Screenings/Pack.antt =====
-- The pack of a screening: the cached one or a new one.
use proofrail_evidence_api.Evidence.{has_pack, put_pack}
use proofrail_evidence_api.Json.{Json}
use proofrail_evidence_api.Prelude.{
  Bool-cases, inr, inl, Option-cases, arith, refl, none, some, eq_refl, true, Option, ◌≡◌, String,
}
use proofrail_evidence_api.Caches.{get}
use proofrail_evidence_api.OrderedDict.{get as get_entry, get-set}
use proofrail_evidence_api.Api.{ApiState}
use proofrail_evidence_api.Api.Calls.{Context}
use proofrail_evidence_api.Api.Screenings.{reuse, pack_for, store_pack}

module _ {B : Type 0} (x : Context B) (screen_key : String) (pack : Json) where
  reuse-outbox :
      (cached : Option String) (s : ApiState B)
      → (reuse x screen_key pack cached s).1.outbox ≡ s.outbox
  reuse-outbox none s = refl
  reuse-outbox (some cached) s = elim (Bool-cases (has_pack cached s.store)) [
    | inl e ↦ rw e refl
    | inr e ↦ rw e refl
  ]

  -- making the pack leaves the outbox alone
  pub pack_for-outbox : (s : ApiState B) → (pack_for x screen_key pack s).1.outbox ≡ s.outbox
  unfolding pack_for
  pack_for-outbox s =
      let got = get screen_key s.screen_cache in
      reuse-outbox got.0 (record s { screen_cache = got.1 })

  store_pack-has_pack :
      (s : ApiState B)
      → has_pack (store_pack x screen_key pack s).0 (store_pack x screen_key pack s).1.store ≡ true
  unfolding has_pack put_pack
  store_pack-has_pack s =
      let payload = x.codec.canonical_json_bytes pack in
      let id = x.codec.sha256_hex payload in
      elim (Option-cases (get_entry s.store.packs id)) [
        | inl e ↦ ground (arith, e, get-set s.store.packs id id payload, eq_refl id)
        | inr (file, e) ↦ ground (arith, e)
      ]

  -- the pack is in the store, the cached one or a new one
  reuse-has_pack :
      (cached : Option String) (s : ApiState B)
      → has_pack (reuse x screen_key pack cached s).0 (reuse x screen_key pack cached s).1.store
        ≡ true
  reuse-has_pack none s = store_pack-has_pack s
  reuse-has_pack (some cached) s = elim (Bool-cases (has_pack cached s.store)) [
    | inl e ↦ rw e e
    | inr e ↦ rw e (store_pack-has_pack s)
  ]

  pub pack_for-has_pack :
      (s : ApiState B)
      → has_pack (pack_for x screen_key pack s).0 (pack_for x screen_key pack s).1.store ≡ true
  unfolding pack_for
  pack_for-has_pack s =
      let got = get screen_key s.screen_cache in
      reuse-has_pack got.0 (record s { screen_cache = got.1 })
