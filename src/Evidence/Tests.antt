-- ===== src/Evidence/Tests.antt =====
-- Runs of the evidence store, and the witnesses.
use proofrail_evidence_api.Prelude.{All, String, none, some, [], ◌∷◌, ◌≡◌, refl}
use proofrail_evidence_api.OrderedDict
use proofrail_evidence_api.Json.{
  get_member, Json, text, array, object, element, no_element, member, no_member,
}
use proofrail_evidence_api.Evidence.{
  Codec, EvidenceStore, found, evidence_pack_integrity_failed, file_not_found, get_pack, put_pack,
  put_blob, get_blob, delete_unreferenced_blobs, is_garbage, referenced_blob_digests, digests_of,
  is_expired, file_digests, pack_digests, source_digests, collect, delete_packs_before,
}
use proofrail_evidence_api.Evidence.Packs.{put_blob_op, put_pack_op, run, get_pack-put_pack}
use proofrail_evidence_api.Evidence.Collection.{SameBlob, collect_keeps}

program : Unit {0}
unfolding get_blob OrderedDict.get collect delete_unreferenced_blobs delete_packs_before put_pack
    put_blob OrderedDict.set is_garbage referenced_blob_digests digests_of is_expired get_member
    file_digests pack_digests source_digests get_pack
program = tt

-- contents are texts, each its own hash; the pack "p" names the blob "b"
abbrev pack : Json
pack = object (
    member "created_at" (text "day 9") (
      member "ingestion"
        (object (
          member "sources"
            (array
              (element (object (member "content_blob_sha256" (text "b") no_member)) no_element))
            no_member))
        no_member))

abbrev codec : Codec String
codec = record {
  sha256_hex = λ b. b;
  canonical_json_bytes = λ j. "p";
  loads = λ b. some pack;
  fromisoformat = λ t. some 9;
}

abbrev empty : EvidenceStore String
empty = record { blobs = []; packs = [] }

abbrev stored : EvidenceStore String
stored = run codec (put_blob_op 1 "b" ∷ put_blob_op 1 "c" ∷ put_pack_op pack ∷ []) empty

abbrev tampered : EvidenceStore String
tampered = record { blobs = []; packs = ("p", "q") ∷ [] }

tampered_refused : get_pack codec "p" tampered ≡ evidence_pack_integrity_failed
unfolding program
tampered_refused = refl

blobs_left :
    (get_blob "b" (collect codec 5 stored) ≡ some "b")
    × (get_blob "c" (collect codec 5 stored) ≡ none)
unfolding program
blobs_left = (refl, refl)

pack_is_there : get_pack codec "p" stored ≡ found pack
unfolding program
pack_is_there = refl

pack_expires : get_pack codec "p" (collect codec 10 stored) ≡ file_not_found
unfolding program
pack_expires = refl

get_pack-put_pack_example :
    get_pack codec (put_pack codec pack empty).0 (put_pack codec pack empty).1 ≡ found pack
unfolding program
get_pack-put_pack_example = get_pack-put_pack codec pack empty (tt, tt) (λ b e h. h) refl

collect_keeps_example :
    (get_pack codec "p" (collect codec 5 stored) ≡ found pack)
    × All (SameBlob codec stored (collect codec 5 stored)) ("b" ∷ [])
unfolding program
collect_keeps_example = collect_keeps codec 5 stored "p" pack pack_is_there refl
