-- ===== src/Chain/Tamper.antt =====
-- The head of the chain determines the events: no event can be changed, added, dropped or moved
-- without another head.
use proofrail_evidence_api.Prelude.{
  All, inr, ltb→lt, ==_iff, inl, ◌==◌, ltb, Bool-cases, ◌≢◌, String, List, [], ◌∷◌, ◌≡◌, refl, sym,
  ap, ◌∙◌, arith, map, length, ◌<◌,
}
use proofrail_evidence_api.Json.{Json}
use proofrail_evidence_api.Evidence.{Codec}
use proofrail_evidence_api.Cases.{ListedEvent}
use proofrail_evidence_api.Chain.{
  ChainedEvent, genesis, link_payload, hash_hex, chain_from, build_case_event_chain,
}

-- the event that a link of the chain shows
abbrev pub event_of : ChainedEvent → ListedEvent
event_of x = record { ts = x.ts; actor = x.actor; event_type = x.event_type; note = x.note }

link_payload_injective :
    (p q : String) (e f : ListedEvent) → link_payload p e ≡ link_payload q f → (p ≡ q) × (e ≡ f)
link_payload_injective p q e f h = (ground (arith, h), ground (arith, h))

module _ {B : Type 0} (c : Codec B) where
  -- one link: it starts at `prev`, and its hash is that of what it shows
  abbrev pub IsLink : String → ChainedEvent → Type 0
  IsLink prev x =
      (x.prev_hash ≡ prev) × (x.hash ≡ hash_hex c (link_payload x.prev_hash (event_of x)))

  -- a chain from one hash to another
  abbrev pub Linked : String → List ChainedEvent → String → Type 0
  Linked prev [] head = prev ≡ head
  Linked prev (x ∷ xs) head = IsLink prev x × Linked x.hash xs head

  chain_from-Linked :
      (prev : String) (es : List ListedEvent)
      → Linked prev (chain_from c prev es).0 (chain_from c prev es).1
  unfolding chain_from
  chain_from-Linked prev [] = refl
  chain_from-Linked prev (e ∷ es) =
      ((refl, refl), chain_from-Linked (hash_hex c (link_payload prev e)) es)

  event_of-chain_from :
      (prev : String) (es : List ListedEvent) → map event_of (chain_from c prev es).0 ≡ es
  unfolding chain_from
  event_of-chain_from prev [] = refl
  event_of-chain_from prev (e ∷ es) =
      ap (λ xs. e ∷ xs) (event_of-chain_from (hash_hex c (link_payload prev e)) es)

  -- The chain is linked from the genesis hash to its head, and shows the events as they were given.
  pub build_case_event_chain_lem :
      (es : List ListedEvent)
      → Linked genesis (build_case_event_chain c es).0 (build_case_event_chain c es).1
        × (map event_of (build_case_event_chain c es).0 ≡ es)
  unfolding build_case_event_chain
  build_case_event_chain_lem es = (chain_from-Linked genesis es, event_of-chain_from genesis es)

  -- the head alone
  abbrev head_from : String → List ListedEvent → String
  head_from prev [] = prev
  head_from prev (e ∷ es) = head_from (hash_hex c (link_payload prev e)) es

  chain_from-head :
      (prev : String) (es : List ListedEvent) → (chain_from c prev es).1 ≡ head_from prev es
  unfolding chain_from
  chain_from-head prev [] = refl
  chain_from-head prev (e ∷ es) = chain_from-head (hash_hex c (link_payload prev e)) es

  -- what is hashed for the links of a timeline
  abbrev pub payloads : String → List ListedEvent → List Json
  payloads prev [] = []
  payloads prev (e ∷ es) = link_payload prev e ∷ payloads (hash_hex c (link_payload prev e)) es

  -- no payload of the one list has the hash of another payload of the other
  abbrev pub NoCollision : List Json → List Json → Type 0
  NoCollision xs ys = All (λ x. All (λ y. hash_hex c x ≡ hash_hex c y → x ≡ y) ys) xs

  NoCollision-tail : (y : Json) (xs ys : List Json) → NoCollision xs (y ∷ ys) → NoCollision xs ys
  NoCollision-tail y [] ys h = tt
  NoCollision-tail y (x ∷ xs) ys h = (h.0.1, NoCollision-tail y xs ys h.1)

  NoCollision-sym : (xs ys : List Json) → NoCollision xs ys → NoCollision ys xs
  NoCollision-sym xs [] h = tt
  NoCollision-sym xs (y ∷ ys) h = (heads xs h, NoCollision-sym xs ys (NoCollision-tail y xs ys h))
    where
      heads :
          (xs : List Json)
          → NoCollision xs (y ∷ ys)
          → All (λ x. hash_hex c y ≡ hash_hex c x → y ≡ x) xs
      heads [] h = tt
      heads (x ∷ xs) h = ((λ same. sym (h.0.0 (sym same))), heads xs h.1)

  -- chains of one length
  same_length :
      (p q : String) (es fs : List ListedEvent)
      → NoCollision (payloads p es) (payloads q fs)
      → length es ≡ length fs
      → head_from p es ≡ head_from q fs
      → (p ≡ q) × (es ≡ fs)
  same_length p q [] [] free n h = (h, refl)
  same_length p q [] (f ∷ fs) free n h = ground (arith, n)
  same_length p q (e ∷ es) [] free n h = ground (arith, n)
  same_length p q (e ∷ es) (f ∷ fs) free n h =
      let p' = hash_hex c (link_payload p e) in
      let q' = hash_hex c (link_payload q f) in
      let (hashes, rest) =
        same_length p' q' es fs
          (NoCollision-tail (link_payload q f) (payloads p' es) (payloads q' fs) free.1)
          (omega (arith, n)) h in
      let (prevs, events) = link_payload_injective p q e f (free.0.0 hashes) in
      (prevs, ground (arith, events, rest))

  -- a timeline that is longer than another from `p`, with the same head, has a link that hashes to
  -- `p`
  longer :
      (p q : String) (es fs : List ListedEvent)
      → NoCollision (payloads p es) (payloads q fs)
      → length es < length fs
      → head_from p es ≡ head_from q fs
      → All (λ x. hash_hex c x ≢ p) (payloads q fs)
      → ⊥
  longer p q es [] free n h never = ground (arith, n)
  longer p q es (f ∷ fs) free n h never =
      let next = hash_hex c (link_payload q f) in
      let free' = NoCollision-tail (link_payload q f) (payloads p es) (payloads next fs) free in
      elim (Bool-cases (length es == length fs)) [
        | inl e ↦
            never.0
              (sym (same_length p next es fs free' ((==_iff (length es) (length fs)).0 e) h).0)
        | inr e ↦ longer p next es fs free' (ground (arith, e, n)) h never.1
      ]

-- Tamper evidence: two timelines with one chain head are the same, event by event, if no two
-- different links of them have one hash and no link of them has the genesis value for its hash.
pub chain_head_injective :
    {B : Type 0} (c : Codec B) (es fs : List ListedEvent)
    → NoCollision c (payloads c genesis es) (payloads c genesis fs)
    → All (λ x. hash_hex c x ≢ genesis) (payloads c genesis es)
    → All (λ x. hash_hex c x ≢ genesis) (payloads c genesis fs)
    → (build_case_event_chain c es).1 ≡ (build_case_event_chain c fs).1
    → es ≡ fs
unfolding build_case_event_chain
chain_head_injective c es fs free es_never fs_never h =
    let heads = sym (chain_from-head c genesis es) ∙ h ∙ chain_from-head c genesis fs in
    elim (Bool-cases (ltb (length es) (length fs))) [
      | inl e ↦
          absurd
            (longer c genesis genesis es fs free (ltb→lt (length es) (length fs) e) heads fs_never)
      | inr e ↦ elim (Bool-cases (ltb (length fs) (length es))) [
        | inl e' ↦ absurd (
            longer c genesis genesis fs es
              (NoCollision-sym c (payloads c genesis es) (payloads c genesis fs) free)
              (ltb→lt (length fs) (length es) e') (sym heads) es_never)
        | inr e' ↦ (same_length c genesis genesis es fs free (ground (arith, e, e')) heads).1
      ]
    ]
