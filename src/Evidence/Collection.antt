-- ===== src/Evidence/Collection.antt =====
-- What the deletions of the retention run leave.
use proofrail_evidence_api.Prelude.{
  ◌∙◌, ℕ, String, Bool, true, false, not, Option, none, some, List, [], ◌∷◌, ◌++◌, ◌≡◌, refl, sym,
  arith, str_eq, eq_iff, if◌then◌else◌, any, eq_refl, All, Option-cases, inl, inr, leb, filter,
}
use proofrail_evidence_api.OrderedDict.{OrderedDict, get}
use proofrail_evidence_api.Json.{Json}
use proofrail_evidence_api.Evidence.{
  collect, get_member, as_text, as_object, Codec, BlobFile, EvidenceStore, found, get_pack,
  get_blob, pack_digests, file_digests, digests_of, referenced_blob_digests, delete_packs_before,
  delete_unreferenced_blobs, is_garbage, is_expired,
}
use proofrail_evidence_api.Evidence.Files.{get-filter_kept, get-filter_missing, get-filter_passes}
use proofrail_evidence_api.Evidence.Packs.{
  delete_blobs_op, get_pack-run, get_pack_file, get_pack_found,
}

any-append {ℓ} :
    {A : Type ℓ} (p : A → Bool) (xs ys : List A)
    → any p (xs ++ ys) ≡ (if any p xs then true else any p ys)
any-append p [] ys = refl
any-append p (x ∷ xs) ys = ground (arith, any-append p xs ys)

module _ {B : Type 0} (c : Codec B) where
  -- the scan finds what a pack file names
  any-digests_of :
      (p : String → Bool) (d : OrderedDict B) (id : String) (payload : B)
      → get d id ≡ some payload
      → any p (file_digests c (id, payload)) ≡ true
      → any p (digests_of c d) ≡ true
  unfolding get digests_of
  any-digests_of p [] id payload there h = ground arith
  any-digests_of p ((j, w) ∷ d) id payload there h = ground (
    arith,
    any-append p (file_digests c (j, w)) (digests_of c d),
    any-digests_of p d id payload,
    eq_iff j id,
  )

  referenced_by_pack :
      (s : EvidenceStore B) (id : String) (pack : Json) (digest : String)
      → get_pack c id s ≡ found pack
      → any (str_eq digest) (pack_digests pack) ≡ true
      → any (str_eq digest) (referenced_blob_digests c s) ≡ true
  unfolding referenced_blob_digests file_digests
  referenced_by_pack s id pack digest h named =
      let (payload, (there, name, parses)) = get_pack_found c id s pack h in
      any-digests_of (str_eq digest) s.packs id payload there
        (ground (arith, named, name, parses, eq_iff (c.sha256_hex payload) id))

  -- a blob that passes the filter whatever its age is read as before
  get-filter_name :
      (p : String × BlobFile B → Bool) (d : OrderedDict (BlobFile B)) (k : String)
      → ((f : BlobFile B) → p (k, f) ≡ true)
      → get (filter p d) k ≡ get d k
  get-filter_name p d k kept = elim (Option-cases (get d k)) [
    | inl e ↦ get-filter_missing p d k e ∙ sym e
    | inr (f, e) ↦ get-filter_kept p d k f e (kept f) ∙ sym e
  ]

  not_garbage :
      (referenced : List String) (cutoff : Option ℕ) (digest : String) (f : BlobFile B)
      → any (str_eq digest) referenced ≡ true
      → not (is_garbage c referenced cutoff (digest, f)) ≡ true
  unfolding is_garbage
  not_garbage referenced cutoff digest f h = ground (arith, h)

  get_blob-ap :
      (digest : String) (s t : EvidenceStore B)
      → get s.blobs digest ≡ get t.blobs digest
      → get_blob digest s ≡ get_blob digest t
  unfolding get_blob
  get_blob-ap digest s t h = ground (arith, h)

  -- The scan for unreferenced blobs deletes no blob that a readable pack names, whatever its age.
  pub delete_unreferenced_blobs_safe :
      (cutoff : Option ℕ) (dry_run : Bool) (s : EvidenceStore B) (id : String) (pack : Json)
      (digest : String)
      → get_pack c id s ≡ found pack
      → any (str_eq digest) (pack_digests pack) ≡ true
      → get_blob digest (delete_unreferenced_blobs c none cutoff dry_run s).1 ≡ get_blob digest s
  unfolding delete_unreferenced_blobs
  delete_unreferenced_blobs_safe cutoff true s id pack digest h named = refl
  delete_unreferenced_blobs_safe cutoff false s id pack digest h named =
      let referenced = referenced_blob_digests c s in
      get_blob-ap digest
        (record s { blobs = filter (λ f. not (is_garbage c referenced cutoff f)) s.blobs }) s
        (get-filter_name (λ f. not (is_garbage c referenced cutoff f)) s.blobs digest
          (λ f.
            not_garbage referenced cutoff digest f (referenced_by_pack s id pack digest h named)))

  -- the pack says that it was created before the cutoff
  abbrev pub created_before : ℕ → Json → Bool
  created_before cutoff pack = elim (as_object (some pack)) [
    | none ↦ false
    | some ms ↦ elim (as_text (get_member "created_at" ms)) [
      | none ↦ false
      | some created_at ↦ elim (c.fromisoformat created_at) [
        | none ↦ false
        | some dt ↦ not (leb cutoff dt)
      ]
    ]
  ]

  -- a readable pack file is expired if the pack says so
  is_expired_readable :
      (cutoff : ℕ) (id : String) (payload : B) (pack : Json)
      → c.sha256_hex payload ≡ id
      → c.loads payload ≡ some pack
      → is_expired c cutoff none (id, payload) ≡ created_before cutoff pack
  unfolding is_expired
  is_expired_readable cutoff id payload pack name parses =
      ground (arith, name, parses, eq_iff (c.sha256_hex payload) id)

  get_blob-delete_packs :
      (cutoff : ℕ) (s : EvidenceStore B) (digest : String)
      → get_blob digest (delete_packs_before c cutoff none false s).1 ≡ get_blob digest s
  unfolding delete_packs_before get_blob
  get_blob-delete_packs cutoff s digest = refl

  get_pack-delete_packs_before :
      (cutoff : ℕ) (s : EvidenceStore B) (id : String) (pack : Json)
      → get_pack c id s ≡ found pack
      → created_before cutoff pack ≡ false
      → get_pack c id (delete_packs_before c cutoff none false s).1 ≡ found pack
  unfolding delete_packs_before
  get_pack-delete_packs_before cutoff s id pack h young =
      let (payload, (there, name, parses)) = get_pack_found c id s pack h in
      let kept_test = λ (f : String × B). not (is_expired c cutoff none f) in
      let kept =
        get-filter_kept kept_test s.packs id payload there
          (rw (is_expired_readable cutoff id payload pack name parses, young) refl) in
      get_pack_file c id (record s { packs = filter kept_test s.packs }) payload pack kept name
        parses

  -- a blob is read as before
  abbrev pub SameBlob : EvidenceStore B → EvidenceStore B → String → Type 0
  SameBlob s s' digest = get_blob digest s' ≡ get_blob digest s

  -- every digest of a list is among those of the list
  any_self :
      (P : String → Type 0) (xs : List String)
      → ((digest : String) → any (str_eq digest) xs ≡ true → P digest)
      → All P xs
  any_self P [] f = tt
  any_self P (x ∷ xs) f =
      (f x (rw (eq_refl x) refl), any_self P xs (λ digest h. f digest (ground (arith, h))))

  -- Retention with a cutoff keeps every readable pack that was not created before the cutoff, and
  -- every blob that such a pack names.
  pub collect_keeps :
      (cutoff : ℕ) (s : EvidenceStore B) (id : String) (pack : Json)
      → get_pack c id s ≡ found pack
      → created_before cutoff pack ≡ false
      → (get_pack c id (collect c cutoff s) ≡ found pack)
        × All (SameBlob s (collect c cutoff s)) (pack_digests pack)
  unfolding collect
  collect_keeps cutoff s id pack h young =
      let s' = (delete_packs_before c cutoff none false s).1 in
      let kept = get_pack-delete_packs_before cutoff s id pack h young in
      (
        get_pack-run c (delete_blobs_op none (some cutoff) false ∷ []) s' id pack (refl, tt) kept,
        any_self (SameBlob s (delete_unreferenced_blobs c none (some cutoff) false s').1)
            (pack_digests pack)
            (λ digest named.
              delete_unreferenced_blobs_safe (some cutoff) false s' id pack digest kept named
              ∙ get_blob-delete_packs cutoff s digest),
      )

  packs-collect :
      (cutoff : ℕ) (s : EvidenceStore B)
      → (collect c cutoff s).packs ≡ filter (λ f. not (is_expired c cutoff none f)) s.packs
  unfolding collect delete_unreferenced_blobs delete_packs_before
  packs-collect cutoff s = refl

  -- After retention with a cutoff no readable pack is left that was created before the cutoff.
  pub collect_expires :
      (cutoff : ℕ) (s : EvidenceStore B) (id : String) (pack : Json)
      → get_pack c id (collect c cutoff s) ≡ found pack
      → created_before cutoff pack ≡ false
  collect_expires cutoff s id pack h =
      let (payload, (there, name, parses)) = get_pack_found c id (collect c cutoff s) pack h in
      let passes =
        get-filter_passes (λ f. not (is_expired c cutoff none f)) s.packs id payload
          (simp (packs-collect cutoff s) at there) in
      ground (arith, is_expired_readable cutoff id payload pack name parses, passes)
