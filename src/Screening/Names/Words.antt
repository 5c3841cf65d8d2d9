-- ===== src/Screening/Names/Words.antt =====
-- A normalised name is the words of the name, upper case, with one space between two.
use proofrail_evidence_api.Screening.Names.{
  upper, lstrip, strip, normalise_name, sub_runs, rstrip_char, rstrip, Codes, is_alnum, is_space,
}
use proofrail_evidence_api.Prelude.{
  All-imp, refl, not, ◌∙◌, ap, Bool, ℕ, ◌≡◌, true, false, List, [], ◌∷◌, ◌++◌, arith, All,
  Bool-cases, inl, inr, if◌then◌else◌,
}

-- a word in front of the others, unless it is empty
abbrev pub push : Codes → List Codes → List Codes
push [] ws = ws
push (c ∷ w) ws = (c ∷ w) ∷ ws

-- the word that the text begins with (empty if it begins with another character), and those after
abbrev pub step : ℕ → Codes × List Codes → Codes × List Codes
step c (w, ws) = if is_alnum c then (c ∷ w, ws) else ([], push w ws)

unfoldable pub split_words : Codes → Codes × List Codes
split_words [] = ([], [])
split_words (c ∷ s) = step c (split_words s)

-- the maximal runs of letters and digits
unfoldable pub words : Codes → List Codes
words s = push (split_words s).0 (split_words s).1

abbrev pub spaced : List Codes → Codes
spaced [] = []
spaced (w ∷ ws) = 32 ∷ (w ++ spaced ws)

-- the words with one space between two
abbrev pub join_words : List Codes → Codes
join_words [] = []
join_words (w ∷ ws) = w ++ spaced ws

abbrev pub IsWord : Codes → Type 0
IsWord [] = ⊥
IsWord (c ∷ w) = All (λ c. is_alnum c ≡ true) (c ∷ w)

alnum_not_space : (c : ℕ) → is_alnum c ≡ true → is_space c ≡ false
unfolding is_alnum is_space
alnum_not_space c h = ground (arith, h)

-- the words of the rest, and the letters of the word in front
Split : Codes × List Codes → Type 0
Split (w, ws) = All (λ c. is_alnum c ≡ true) w × All IsWord ws

push-IsWord :
    (w : Codes) (ws : List Codes)
    → All (λ c. is_alnum c ≡ true) w
    → All IsWord ws
    → All IsWord (push w ws)
push-IsWord [] ws h k = k
push-IsWord (c ∷ w) ws h k = (h, k)

step-Split : (c : ℕ) (p : Codes × List Codes) → Split p → Split (step c p)
unfolding Split
step-Split c p h = elim (Bool-cases (is_alnum c)) [
  | inl e ↦ rw e ((e, h.0), h.1)
  | inr e ↦ rw e (tt, push-IsWord p.0 p.1 h.0 h.1)
]

split_words-Split : (s : Codes) → Split (split_words s)
unfolding split_words
split_words-Split [] = unfold Split in (tt, tt)
split_words-Split (c ∷ s) = step-Split c (split_words s) (split_words-Split s)

pub words-IsWord : (s : Codes) → All IsWord (words s)
unfolding words Split
words-IsWord s =
    let h = split_words-Split s in push-IsWord (split_words s).0 (split_words s).1 h.0 h.1

rest-IsWord : (s : Codes) → All IsWord (split_words s).1
unfolding Split
rest-IsWord s = (split_words-Split s).1

-- the space in front of a text, unless the text is empty
mark : Codes → Codes
mark s = rstrip_char 32 s

mark-push :
    (w : Codes) (ws : List Codes)
    → All IsWord ws
    → mark (join_words (push w ws)) ≡ spaced (push w ws)
unfolding mark rstrip_char is_space
mark-push [] [] h = refl
mark-push [] ([] ∷ ws) h = absurd h.0
mark-push [] ((c ∷ w) ∷ ws) h = refl
mark-push (c ∷ w) ws h = refl

rstrip_char-alnum : (c : ℕ) (s : Codes) → is_alnum c ≡ true → rstrip_char c s ≡ c ∷ s
unfolding rstrip_char
rstrip_char-alnum c [] h = rw (alnum_not_space c h) refl
rstrip_char-alnum c (d ∷ s) h = refl

-- what is left of a text with its runs replaced, inside a run and outside
Stripped : Codes → Codes × List Codes → Type 0
Stripped s p =
    (rstrip (sub_runs is_alnum true s) ≡ join_words (push p.0 p.1))
    × (rstrip (sub_runs is_alnum false s) ≡ p.0 ++ spaced p.1)

sub_runs-alnum :
    (c : ℕ) (s : Codes) (p : Codes × List Codes) (run : Bool)
    → is_alnum c ≡ true
    → Stripped s p
    → rstrip (sub_runs is_alnum run (c ∷ s)) ≡ (c ∷ p.0) ++ spaced p.1
unfolding Stripped sub_runs
sub_runs-alnum c s p run h k = rw h (unfold rstrip in rstrip_char-alnum c _ h ∙ ap (λ t. c ∷ t) k.1)

sub_runs-skip :
    (c : ℕ) (s : Codes) (p : Codes × List Codes)
    → is_alnum c ≡ false
    → All IsWord p.1
    → Stripped s p
    → Stripped (c ∷ s) ([], push p.0 p.1)
unfolding Stripped sub_runs
sub_runs-skip c s (w, ws) h hw k =
    rw h (k.0, unfold rstrip in ap (rstrip_char 32) k.0 ∙ unfold mark in mark-push w ws hw)

step-Stripped :
    (c : ℕ) (s : Codes) (p : Codes × List Codes)
    → All IsWord p.1
    → Stripped s p
    → Stripped (c ∷ s) (step c p)
step-Stripped c s p hw k = elim (Bool-cases (is_alnum c)) [
  | inl e ↦
      rw e (unfold Stripped in (sub_runs-alnum c s p true e k, sub_runs-alnum c s p false e k))
  | inr e ↦ rw e (sub_runs-skip c s p e hw k)
]

split_words-Stripped : (s : Codes) → Stripped s (split_words s)
unfolding split_words
split_words-Stripped [] = unfold Stripped in unfold sub_runs in unfold rstrip in (refl, refl)
split_words-Stripped (c ∷ s) =
    step-Stripped c s (split_words s) (rest-IsWord s) (split_words-Stripped s)

-- inside a run no space comes first
lstrip-sub_runs : (s : Codes) → lstrip (sub_runs is_alnum true s) ≡ sub_runs is_alnum true s
unfolding sub_runs lstrip
lstrip-sub_runs [] = refl
lstrip-sub_runs (c ∷ s) = elim (Bool-cases (is_alnum c)) [
  | inl e ↦ rw (e, alnum_not_space c e) refl
  | inr e ↦ rw e (lstrip-sub_runs s)
]

lstrip_run : (s : Codes) → lstrip (sub_runs is_alnum false s) ≡ sub_runs is_alnum true s
unfolding sub_runs lstrip
lstrip_run [] = refl
lstrip_run (c ∷ s) = elim (Bool-cases (is_alnum c)) [
  | inl e ↦ rw (e, alnum_not_space c e) refl
  | inr e ↦ rw e (unfold is_space in lstrip-sub_runs s)
]

cleaned_lem : (s : Codes) → strip (sub_runs is_alnum false s) ≡ join_words (words s)
unfolding strip words Stripped
cleaned_lem s = ap rstrip (lstrip_run s) ∙ (split_words-Stripped s).0

solid : ℕ → Bool
solid c = not (is_space c)

abbrev IsSolid : Codes → Type 0
IsSolid = All (λ c. solid c ≡ true)

sub_runs-append :
    (w t : Codes) → IsSolid w → sub_runs solid false (w ++ t) ≡ w ++ sub_runs solid false t
unfolding sub_runs
sub_runs-append [] t h = refl
sub_runs-append (c ∷ w) t h = rw h.0 (ap (λ s. c ∷ s) (sub_runs-append w t h.1))

alnum_solid : (c : ℕ) → is_alnum c ≡ true → solid c ≡ true
unfolding solid
alnum_solid c h = rw (alnum_not_space c h) refl

word-IsSolid : (w : Codes) → All (λ c. is_alnum c ≡ true) w → IsSolid w
word-IsSolid w h = All-imp {Q = λ c. solid c ≡ true} alnum_solid w h

space_not_solid : solid 32 ≡ false
unfolding solid is_space
space_not_solid = refl

-- words with one space between two are left as they are
sub_runs-spaced : (ws : List Codes) → All IsWord ws → sub_runs solid false (spaced ws) ≡ spaced ws
unfolding sub_runs
sub_runs-spaced [] h = refl
sub_runs-spaced ([] ∷ ws) h = absurd h.0
sub_runs-spaced ((c ∷ w) ∷ ws) h =
    rw (space_not_solid, alnum_solid c h.0.0)
      (ap (λ s. 32 ∷ c ∷ s)
        (sub_runs-append w (spaced ws) (word-IsSolid (c ∷ w) h.0).1
          ∙ ap (λ s. w ++ s) (sub_runs-spaced ws h.1)))

sub_runs-join_words :
    (ws : List Codes) → All IsWord ws → sub_runs solid false (join_words ws) ≡ join_words ws
sub_runs-join_words [] h = unfold sub_runs in refl
sub_runs-join_words ([] ∷ ws) h = absurd h.0
sub_runs-join_words ((c ∷ w) ∷ ws) h =
    sub_runs-append (c ∷ w) (spaced ws) (word-IsSolid (c ∷ w) h.0)
    ∙ ap (λ s. (c ∷ w) ++ s) (sub_runs-spaced ws h.1)

-- The normalised name is the maximal runs of ASCII letters and digits of the name in upper case,
-- joined with one space between two, for every name.
pub normalise_name-words : (name : Codes) → normalise_name name ≡ join_words (words (upper name))
unfolding normalise_name solid
normalise_name-words name =
    ap (sub_runs solid false) (cleaned_lem (upper name))
    ∙ sub_runs-join_words (words (upper name)) (words-IsWord (upper name))
