-- ===== src/Evidence.antt =====
-- `EvidenceStore` of ProofRail/service/storage.py: files of blobs and of evidence packs, named by the
-- SHA-256 of their contents. The hash, the JSON codec and the parsing of a timestamp are arguments
-- (`Codec`); a directory is the list of its files by name; times are whole seconds.
pub mod Files
pub mod Packs
pub mod Collection
mod Tests
use proofrail_evidence_api.Prelude.{
  ℕ, Bool, true, false, not, ◌||◌, ◌&&◌, String, Option, none, some, List, [], ◌∷◌, ◌++◌, leb, ltb,
  str_eq, if◌then◌else◌, length, filter, any, is_none,
}
use proofrail_evidence_api.OrderedDict.{OrderedDict, get, remove, set}
use proofrail_evidence_api.Json.{
  Json, Elements, Members, object, no_element, element, get_member, as_text, as_object, as_array,
  truthy_text,
}

pub record Codec (B : Type 0) : Type 0 where
  pub sha256_hex : B → String
  pub canonical_json_bytes : Json → B
  -- `json.loads(payload.decode("utf-8"))`, `none` where it raises
  pub loads : B → Option Json
  -- `datetime.fromisoformat(created_at.replace("Z", "+00:00"))`, `none` where it raises or where the
  -- result has no zone and cannot be compared
  pub fromisoformat : String → Option ℕ

pub record BlobFile (B : Type 0) : Type 0 where
  pub contents : B
  pub mtime : ℕ

pub record EvidenceStore (B : Type 0) : Type 0 where
  pub blobs : OrderedDict (BlobFile B)
  pub packs : OrderedDict B

-- what `get_pack` returns or raises
pub data PackRead : Type 0 where
  found : Json → PackRead
  file_not_found : PackRead
  evidence_pack_integrity_failed : PackRead
  not_json : PackRead

-- the digests that a pack's `ingestion.sources` names
unfoldable pub source_digests : Elements → List String
source_digests no_element = []
source_digests (element e es) =
    (elim (as_object (some e)) [
      | none ↦ []
      | some source ↦ truthy_text (as_text (get_member "content_blob_sha256" source))
    ])
    ++ source_digests es

-- the digests that a parsed pack names
unfoldable pub pack_digests : Json → List String
pack_digests pack = elim (as_object (some pack)) [
  | none ↦ []
  | some ms ↦ elim (as_object (get_member "ingestion" ms)) [
    | none ↦ []
    | some ingestion ↦
        truthy_text (as_text (get_member "normalized_name_sets_blob_sha256" ingestion))
        ++ (elim (as_array (get_member "sources" ingestion)) [
          | none ↦ []
          | some sources ↦ source_digests sources
        ])
  ]
]

module _ {B : Type 0} (c : Codec B) where
  -- `put_blob`, at a clock that gives the file its time
  unfoldable pub put_blob : ℕ → B → EvidenceStore B → String × EvidenceStore B
  put_blob now content s =
      let digest = c.sha256_hex content in
      (
        digest,
        elim (get s.blobs digest) [
          | none ↦ record s {
            blobs = set s.blobs digest (record { contents = content; mtime = now });
          }
          | some file ↦ s
        ],
      )

  -- `put_pack`
  unfoldable pub put_pack : Json → EvidenceStore B → String × EvidenceStore B
  put_pack pack s =
      let payload = c.canonical_json_bytes pack in
      let pack_id = c.sha256_hex payload in
      (
        pack_id,
        elim (get s.packs pack_id) [
          | none ↦ record s { packs = set s.packs pack_id payload }
          | some file ↦ s
        ],
      )

  -- `get_pack`
  unfoldable pub get_pack : String → EvidenceStore B → PackRead
  get_pack pack_id s = elim (get s.packs pack_id) [
    | none ↦ file_not_found
    | some payload ↦
        if not (str_eq (c.sha256_hex payload) pack_id)
        then evidence_pack_integrity_failed
        else (elim (c.loads payload) [ none ↦ not_json | some pack ↦ found pack ])
  ]

  -- the file passes the tests of `delete_packs_before`
  unfoldable pub is_expired : ℕ → Option String → String × B → Bool
  is_expired cutoff customer_id (stem, payload) =
      if not (str_eq (c.sha256_hex payload) stem) then false else (elim (c.loads payload) [
        | none ↦ false
        | some pack ↦ elim (as_object (some pack)) [
          | none ↦ false
          | some ms ↦
              if (elim customer_id [
                | none ↦ false
                | some id ↦ elim (as_text (get_member "customer_id" ms)) [
                  | none ↦ true
                  | some owner ↦ not (str_eq owner id)
                ]
              ])
              then false
              else (elim (as_text (get_member "created_at" ms)) [
                | none ↦ false
                | some created_at ↦ elim (c.fromisoformat created_at) [
                  | none ↦ false
                  | some dt ↦ not (leb cutoff dt)
                ]
              ])
        ]
      ])

  -- `delete_packs_before`
  unfoldable pub delete_packs_before :
      ℕ → Option String → Bool → EvidenceStore B → ℕ × EvidenceStore B
  delete_packs_before cutoff customer_id dry_run s = (
    length (filter (is_expired cutoff customer_id) s.packs),
    if dry_run
        then s
        else record s { packs = filter (λ f. not (is_expired cutoff customer_id f)) s.packs },
  )

  -- what one pack file adds to `referenced_blob_digests`
  unfoldable pub file_digests : String × B → List String
  file_digests (stem, payload) =
      if not (str_eq (c.sha256_hex payload) stem)
      then []
      else (elim (c.loads payload) [ none ↦ [] | some pack ↦ pack_digests pack ])

  unfoldable pub digests_of : OrderedDict B → List String
  digests_of [] = []
  digests_of (f ∷ fs) = file_digests f ++ digests_of fs

  -- `referenced_blob_digests`, the set as the list of its members
  unfoldable pub referenced_blob_digests : EvidenceStore B → List String
  referenced_blob_digests s = digests_of s.packs

  -- `referenced or self.referenced_blob_digests()`: an empty set counts as none
  abbrev pub or_scan : Option (List String) → EvidenceStore B → List String
  or_scan none s = referenced_blob_digests s
  or_scan (some []) s = referenced_blob_digests s
  or_scan (some (d ∷ ds)) s = d ∷ ds

  -- the blob passes the tests of `delete_unreferenced_blobs`
  unfoldable pub is_garbage : List String → Option ℕ → String × BlobFile B → Bool
  is_garbage referenced cutoff (digest, file) =
      if any (str_eq digest) referenced
      then false
      else (elim cutoff [ none ↦ true | some time ↦ not (leb time file.mtime) ])

  -- `delete_unreferenced_blobs`
  unfoldable pub delete_unreferenced_blobs :
      Option (List String) → Option ℕ → Bool → EvidenceStore B → ℕ × EvidenceStore B
  delete_unreferenced_blobs referenced cutoff dry_run s =
      let digests = or_scan referenced s in
      (
        length (filter (is_garbage digests cutoff) s.blobs),
        if dry_run
            then s
            else record s { blobs = filter (λ f. not (is_garbage digests cutoff f)) s.blobs },
      )

  -- the two deletions of the worker's retention run, with one cutoff
  unfoldable pub collect : ℕ → EvidenceStore B → EvidenceStore B
  collect cutoff s =
      (delete_unreferenced_blobs none (some cutoff) false
        (delete_packs_before cutoff none false s).1).1

module _ {B : Type 0} where
  -- `get_blob`, `none` for a missing file
  unfoldable pub get_blob : String → EvidenceStore B → Option B
  get_blob digest s = elim (get s.blobs digest) [ none ↦ none | some file ↦ some file.contents ]

  -- `has_blob` and `has_pack`
  unfoldable pub has_blob : String → EvidenceStore B → Bool
  has_blob digest s = not (is_none (get s.blobs digest))

  unfoldable pub has_pack : String → EvidenceStore B → Bool
  has_pack pack_id s = not (is_none (get s.packs pack_id))

  -- `delete_blob` and `delete_pack`
  unfoldable pub delete_blob : String → EvidenceStore B → Bool × EvidenceStore B
  delete_blob digest s = (has_blob digest s, record s { blobs = remove s.blobs digest })

  unfoldable pub delete_pack : String → EvidenceStore B → Bool × EvidenceStore B
  delete_pack pack_id s = (has_pack pack_id s, record s { packs = remove s.packs pack_id })
