-- ===== src/Evidence/Packs.antt =====
-- Evidence packs are named by what they hold: what is put is read back, and nothing else is.
use proofrail_evidence_api.Prelude.{
  ap, ℕ, String, Bool, true, false, not, Option, some, List, [], ◌∷◌, ◌≡◌, refl, sym, arith, str_eq,
  eq_iff, eq_refl, All, All-filter, Option-cases, inl, inr,
}
use proofrail_evidence_api.OrderedDict.{get, get-set, get-remove}
use proofrail_evidence_api.Json.{Json}
use proofrail_evidence_api.Evidence.{
  Codec, EvidenceStore, found, get_pack, put_pack, put_blob, delete_blob, delete_pack,
  delete_packs_before, delete_unreferenced_blobs,
}
use proofrail_evidence_api.Evidence.Files.{All-get, All-set, All-remove}

-- the operations that write to the store
pub data StoreOp (B : Type 0) : Type 0 where
  put_blob_op : ℕ → B → StoreOp B
  put_pack_op : Json → StoreOp B
  delete_blob_op delete_pack_op : String → StoreOp B
  delete_packs_op : ℕ → Option String → Bool → StoreOp B
  delete_blobs_op : Option (List String) → Option ℕ → Bool → StoreOp B

module _ {B : Type 0} (c : Codec B) where
  -- every file has the name that its contents give it
  abbrev pub IsIntact : EvidenceStore B → Type 0
  IsIntact s =
      All (λ f. c.sha256_hex f.1 ≡ f.0) s.packs × All (λ f. c.sha256_hex f.1.contents ≡ f.0) s.blobs

  abbrev pub apply : StoreOp B → EvidenceStore B → EvidenceStore B
  apply (put_blob_op now content) s = (put_blob c now content s).1
  apply (put_pack_op pack) s = (put_pack c pack s).1
  apply (delete_blob_op digest) s = (delete_blob digest s).1
  apply (delete_pack_op pack_id) s = (delete_pack pack_id s).1
  apply (delete_packs_op cutoff customer_id dry_run) s =
      (delete_packs_before c cutoff customer_id dry_run s).1
  apply (delete_blobs_op referenced cutoff dry_run) s =
      (delete_unreferenced_blobs c referenced cutoff dry_run s).1

  abbrev pub run : List (StoreOp B) → EvidenceStore B → EvidenceStore B
  run [] s = s
  run (op ∷ ops) s = run ops (apply op s)

  -- the operation does not ask for the deletion of the pack
  abbrev pub spares : String → StoreOp B → Bool
  spares id (put_blob_op now content) = true
  spares id (put_pack_op pack) = true
  spares id (delete_blob_op digest) = true
  spares id (delete_pack_op pack_id) = not (str_eq pack_id id)
  spares id (delete_packs_op cutoff customer_id dry_run) = dry_run
  spares id (delete_blobs_op referenced cutoff dry_run) = true

  -- what `get_pack` returns is in the file of that name, whose contents have that hash
  pub get_pack_found :
      (id : String) (s : EvidenceStore B) (pack : Json)
      → get_pack c id s ≡ found pack
      → (payload : B) × ((get s.packs id ≡ some payload)
          × (c.sha256_hex payload ≡ id)
          × (c.loads payload ≡ some pack))
  unfolding get_pack
  get_pack_found id s pack h = elim (Option-cases (get s.packs id)) [
    | inl e ↦ ground (arith, e, h)
    | inr (payload, e) ↦ (payload, ground (arith, e, h, eq_iff (c.sha256_hex payload) id))
  ]

  -- Two stores that both return a pack for one id return the same pack, if the two files of that name
  -- are no collision of the hash: whoever alters a pack file makes `get_pack` refuse it.
  pub get_pack_unique :
      (id : String) (s t : EvidenceStore B) (p q : Json)
      → ((a b : B)
          → get s.packs id ≡ some a
          → get t.packs id ≡ some b
          → c.sha256_hex a ≡ c.sha256_hex b
          → a ≡ b)
      → get_pack c id s ≡ found p
      → get_pack c id t ≡ found q
      → p ≡ q
  get_pack_unique id s t p q injective hs ht =
      let (a, (a_there, a_hash, a_json)) = get_pack_found id s p hs in
      let (b, (b_there, b_hash, b_json)) = get_pack_found id t q ht in
      let same = injective a b a_there b_there (rw (a_hash, b_hash) refl) in
      ground (arith, ap c.loads same)

  -- the file of a pack, once it is put
  get-put_pack :
      (pack : Json) (s : EvidenceStore B)
      → IsIntact s
      → ((b : B)
          → get s.packs (c.sha256_hex (c.canonical_json_bytes pack)) ≡ some b
          → c.sha256_hex b ≡ c.sha256_hex (c.canonical_json_bytes pack)
          → b ≡ c.canonical_json_bytes pack)
      → get (put_pack c pack s).1.packs (put_pack c pack s).0 ≡ some (c.canonical_json_bytes pack)
  unfolding put_pack
  get-put_pack pack s intact unique =
      let id = c.sha256_hex (c.canonical_json_bytes pack) in
      elim (Option-cases (get s.packs id)) [
        | inl e ↦ ground (arith, e, get-set s.packs id id (c.canonical_json_bytes pack), eq_refl id)
        | inr (b, e) ↦
            ground
              (arith, e, unique b e (All-get (λ f. c.sha256_hex f.1 ≡ f.0) s.packs id b intact.0 e))
      ]

  put_pack_id :
      (pack : Json) (s : EvidenceStore B)
      → (put_pack c pack s).0 ≡ c.sha256_hex (c.canonical_json_bytes pack)
  unfolding put_pack
  put_pack_id pack s = refl

  pub get_pack_file :
      (id : String) (s : EvidenceStore B) (payload : B) (pack : Json)
      → get s.packs id ≡ some payload
      → c.sha256_hex payload ≡ id
      → c.loads payload ≡ some pack
      → get_pack c id s ≡ found pack
  unfolding get_pack
  get_pack_file id s payload pack there name parses =
      ground (arith, there, name, parses, eq_iff (c.sha256_hex payload) id)

  -- A pack that is put is read back, if the store is intact, a file that is already there under the
  -- pack's name is no collision of the hash, and the pack's JSON parses to the pack.
  pub get_pack-put_pack :
      (pack : Json) (s : EvidenceStore B)
      → IsIntact s
      → ((b : B)
          → get s.packs (c.sha256_hex (c.canonical_json_bytes pack)) ≡ some b
          → c.sha256_hex b ≡ c.sha256_hex (c.canonical_json_bytes pack)
          → b ≡ c.canonical_json_bytes pack)
      → c.loads (c.canonical_json_bytes pack) ≡ some pack
      → get_pack c (put_pack c pack s).0 (put_pack c pack s).1 ≡ found pack
  get_pack-put_pack pack s intact unique parses =
      get_pack_file (put_pack c pack s).0 (put_pack c pack s).1 (c.canonical_json_bytes pack) pack
        (get-put_pack pack s intact unique) (sym (put_pack_id pack s)) parses

  put_blob-IsIntact :
      (now : ℕ) (content : B) (s : EvidenceStore B)
      → IsIntact s
      → IsIntact (put_blob c now content s).1
  unfolding put_blob
  put_blob-IsIntact now content s h =
      let digest = c.sha256_hex content in
      elim (Option-cases (get s.blobs digest)) [
        | inl e ↦
            rw (e, put_blob)
              (
                h.0,
                All-set (λ f. c.sha256_hex f.1.contents ≡ f.0) s.blobs digest
                    (record { contents = content; mtime = now }) h.1 refl,
              )
        | inr (f, e) ↦ rw (e, put_blob) h
      ]

  put_pack-IsIntact :
      (pack : Json) (s : EvidenceStore B) → IsIntact s → IsIntact (put_pack c pack s).1
  unfolding put_pack
  put_pack-IsIntact pack s h =
      let payload = c.canonical_json_bytes pack in
      elim (Option-cases (get s.packs (c.sha256_hex payload))) [
        | inl e ↦
            rw (e, put_pack)
              (
                All-set (λ f. c.sha256_hex f.1 ≡ f.0) s.packs (c.sha256_hex payload) payload h.0
                    refl,
                h.1,
              )
        | inr (f, e) ↦ rw (e, put_pack) h
      ]

  -- Every operation keeps the store intact.
  pub apply-IsIntact : (op : StoreOp B) (s : EvidenceStore B) → IsIntact s → IsIntact (apply op s)
  unfolding delete_blob delete_pack delete_packs_before delete_unreferenced_blobs
  apply-IsIntact (put_blob_op now content) s h = put_blob-IsIntact now content s h
  apply-IsIntact (put_pack_op pack) s h = put_pack-IsIntact pack s h
  apply-IsIntact (delete_blob_op digest) s h =
      (h.0, All-remove (λ f. c.sha256_hex f.1.contents ≡ f.0) s.blobs digest h.1)
  apply-IsIntact (delete_pack_op pack_id) s h =
      (All-remove (λ f. c.sha256_hex f.1 ≡ f.0) s.packs pack_id h.0, h.1)
  apply-IsIntact (delete_packs_op cutoff customer_id true) s h = h
  apply-IsIntact (delete_packs_op cutoff customer_id false) s h =
      (All-filter (λ f. c.sha256_hex f.1 ≡ f.0) _ s.packs h.0, h.1)
  apply-IsIntact (delete_blobs_op referenced cutoff true) s h = h
  apply-IsIntact (delete_blobs_op referenced cutoff false) s h =
      (h.0, All-filter (λ f. c.sha256_hex f.1.contents ≡ f.0) _ s.blobs h.1)

  run-IsIntact : (ops : List (StoreOp B)) (s : EvidenceStore B) → IsIntact s → IsIntact (run ops s)
  run-IsIntact [] s h = h
  run-IsIntact (op ∷ ops) s h = run-IsIntact ops (apply op s) (apply-IsIntact op s h)

  -- the file of a pack is left as it is by what does not ask for its deletion
  get-apply_spared :
      (op : StoreOp B) (s : EvidenceStore B) (id : String) (payload : B)
      → spares id op ≡ true
      → get s.packs id ≡ some payload
      → get (apply op s).packs id ≡ some payload
  unfolding put_blob put_pack delete_blob delete_pack delete_packs_before delete_unreferenced_blobs
  get-apply_spared (put_blob_op now content) s id payload h k = ground (arith, k)
  get-apply_spared (put_pack_op pack) s id payload h k =
      let name = c.sha256_hex (c.canonical_json_bytes pack) in
      ground (arith, k, get-set s.packs name id (c.canonical_json_bytes pack), eq_iff name id)
  get-apply_spared (delete_blob_op digest) s id payload h k = k
  get-apply_spared (delete_pack_op pack_id) s id payload h k =
      ground (arith, k, h, get-remove s.packs pack_id id)
  get-apply_spared (delete_packs_op cutoff customer_id true) s id payload h k = k
  get-apply_spared (delete_packs_op cutoff customer_id false) s id payload h k = ground (arith, h)
  get-apply_spared (delete_blobs_op referenced cutoff true) s id payload h k = k
  get-apply_spared (delete_blobs_op referenced cutoff false) s id payload h k = k

  get-run_spared :
      (ops : List (StoreOp B)) (s : EvidenceStore B) (id : String) (payload : B)
      → All (λ op. spares id op ≡ true) ops
      → get s.packs id ≡ some payload
      → get (run ops s).packs id ≡ some payload
  get-run_spared [] s id payload h k = k
  get-run_spared (op ∷ ops) s id payload h k =
      get-run_spared ops (apply op s) id payload h.1 (get-apply_spared op s id payload h.0 k)

  -- A pack that `get_pack` returns is returned, the same, after any operations that do not ask for
  -- its deletion.
  pub get_pack-run :
      (ops : List (StoreOp B)) (s : EvidenceStore B) (id : String) (pack : Json)
      → All (λ op. spares id op ≡ true) ops
      → get_pack c id s ≡ found pack
      → get_pack c id (run ops s) ≡ found pack
  get_pack-run ops s id pack h k =
      let (payload, (there, name, parses)) = get_pack_found id s pack k in
      get_pack_file id (run ops s) payload pack (get-run_spared ops s id payload h there) name
        parses
