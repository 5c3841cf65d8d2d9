-- ===== src/Screening/Names/Idempotent.antt =====
-- Normalising a normalised name changes nothing.
use proofrail_evidence_api.Screening.Names.{
  normalise_name, Codes, within, is_alnum, special_upper, upper_char, upper,
}
use proofrail_evidence_api.Screening.Names.Words.{
  words-IsWord, normalise_name-words, IsWord, push, step, split_words, words, spaced, join_words,
}
use proofrail_evidence_api.Prelude.{
  ◌∙◌, refl, append-nil, ℕ, ◌≡◌, refl, ap, true, false, List, [], ◌∷◌, ◌++◌, arith, All, All-append,
  Bool-cases, inl, inr,
}

abbrev NotLower : ℕ → Type 0
NotLower c = within 97 122 c ≡ false

abbrev Fixed : ℕ → Type 0
Fixed c = upper_char c ≡ c ∷ []

special_upper-NotLower : (c : ℕ) → NotLower c → All NotLower (special_upper c)
unfolding special_upper
special_upper-NotLower c h = ground (arith, h)

upper_char-NotLower : (c : ℕ) → All NotLower (upper_char c)
unfolding upper_char
upper_char-NotLower c = elim (Bool-cases (within 97 122 c)) [
  | inl e ↦ rw e (ground (arith, e), tt)
  | inr e ↦ rw e (special_upper-NotLower c e)
]

upper-NotLower : (s : Codes) → All NotLower (upper s)
unfolding upper
upper-NotLower [] = tt
upper-NotLower (c ∷ s) =
    All-append NotLower (upper_char c) (upper s) (upper_char-NotLower c) (upper-NotLower s)

alnum-Fixed : (c : ℕ) → is_alnum c ≡ true → NotLower c → Fixed c
unfolding upper_char special_upper is_alnum
alnum-Fixed c h k = ground (arith, h, k)

space-Fixed : Fixed 32
unfolding upper_char special_upper
space-Fixed = refl

upper-Fixed : (s : Codes) → All Fixed s → upper s ≡ s
unfolding upper
upper-Fixed [] h = refl
upper-Fixed (c ∷ s) h = rw h.0 (ap (λ t. c ∷ t) (upper-Fixed s h.1))

Split : Codes × List Codes → Type 0
Split p = All Fixed p.0 × All (All Fixed) p.1

push-Fixed :
    (w : Codes) (ws : List Codes) → All Fixed w → All (All Fixed) ws → All (All Fixed) (push w ws)
push-Fixed [] ws h k = k
push-Fixed (c ∷ w) ws h k = (h, k)

step-Split : (c : ℕ) (p : Codes × List Codes) → NotLower c → Split p → Split (step c p)
unfolding Split
step-Split c p k h = elim (Bool-cases (is_alnum c)) [
  | inl e ↦ rw e ((alnum-Fixed c e k, h.0), h.1)
  | inr e ↦ rw e (tt, push-Fixed p.0 p.1 h.0 h.1)
]

split_words-Split : (s : Codes) → All NotLower s → Split (split_words s)
unfolding split_words
split_words-Split [] h = unfold Split in (tt, tt)
split_words-Split (c ∷ s) h = step-Split c (split_words s) h.0 (split_words-Split s h.1)

words-Fixed : (s : Codes) → All NotLower s → All (All Fixed) (words s)
unfolding words Split
words-Fixed s h =
    push-Fixed (split_words s).0 (split_words s).1 (split_words-Split s h).0
      (split_words-Split s h).1

spaced-Fixed : (ws : List Codes) → All (All Fixed) ws → All Fixed (spaced ws)
spaced-Fixed [] h = tt
spaced-Fixed (w ∷ ws) h = (space-Fixed, All-append Fixed w (spaced ws) h.0 (spaced-Fixed ws h.1))

join_words-Fixed : (ws : List Codes) → All (All Fixed) ws → All Fixed (join_words ws)
join_words-Fixed [] h = tt
join_words-Fixed (w ∷ ws) h = All-append Fixed w (spaced ws) h.0 (spaced-Fixed ws h.1)

-- the words of a text that begins with a word
split_words-append :
    (w t : Codes)
    → All (λ c. is_alnum c ≡ true) w
    → split_words (w ++ t) ≡ (w ++ (split_words t).0, (split_words t).1)
unfolding split_words
split_words-append [] t h = refl
split_words-append (c ∷ w) t h =
    rw h.0 (ap (λ (p : Codes × List Codes). (c ∷ p.0, p.1)) (split_words-append w t h.1))

space_not_alnum : is_alnum 32 ≡ false
unfolding is_alnum
space_not_alnum = refl

-- a word in front of spaced words
split_words-word :
    (w : Codes) (ws : List Codes)
    → All (λ c. is_alnum c ≡ true) w
    → split_words (spaced ws) ≡ ([], ws)
    → split_words (w ++ spaced ws) ≡ (w, ws)
split_words-word w ws h k =
    split_words-append w (spaced ws) h
    ∙ ap (λ (p : Codes × List Codes). (w ++ p.0, p.1)) k
    ∙ ap (λ v. (v, ws)) (append-nil w)

split_words-space :
    (t : Codes) (w : Codes) (ws : List Codes)
    → split_words t ≡ (w, ws)
    → split_words (32 ∷ t) ≡ ([], push w ws)
unfolding split_words
split_words-space t w ws h =
    rw space_not_alnum (ap (λ (p : Codes × List Codes). ([], push p.0 p.1)) h)

split_words-spaced : (ws : List Codes) → All IsWord ws → split_words (spaced ws) ≡ ([], ws)
split_words-spaced [] h = unfold split_words in refl
split_words-spaced ([] ∷ ws) h = absurd h.0
split_words-spaced ((c ∷ w) ∷ ws) h =
    split_words-space ((c ∷ w) ++ spaced ws) (c ∷ w) ws
      (split_words-word (c ∷ w) ws h.0 (split_words-spaced ws h.1))

words-join_words : (ws : List Codes) → All IsWord ws → words (join_words ws) ≡ ws
unfolding words
words-join_words [] h = unfold split_words in refl
words-join_words ([] ∷ ws) h = absurd h.0
words-join_words ((c ∷ w) ∷ ws) h =
    ap (λ (p : Codes × List Codes). push p.0 p.1)
      (split_words-word (c ∷ w) ws h.0 (split_words-spaced ws h.1))

-- Normalising a name a second time changes nothing, for every name.
pub normalise_name-idempotent :
    (name : Codes) → normalise_name (normalise_name name) ≡ normalise_name name
normalise_name-idempotent name =
    let ws = words (upper name) in
    let fixed : upper (join_words ws) ≡ join_words ws =
      upper-Fixed (join_words ws)
        (join_words-Fixed ws (words-Fixed (upper name) (upper-NotLower name))) in
    rw (normalise_name-words name) (
      normalise_name-words (join_words ws)
      ∙ ap (λ s. join_words (words s)) fixed
      ∙ ap join_words (words-join_words ws (words-IsWord (upper name))))
