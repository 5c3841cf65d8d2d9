-- ===== src/Screening/Names.antt =====
-- `normalise_name` and `normalised_name_set` of ProofRail/sanctions_determinism.py. A text is the
-- list of its code points. `str.upper` is written out where it reaches ASCII: the letters, and the
-- characters whose full upper case holds an ASCII letter. Every other character is above ASCII
-- after as before, where the regular expression replaces it all the same.
pub mod Words
pub mod Idempotent
pub mod Sets
mod Tests
use Prim.Native.Char.{code}
use Prim.Native.String.{String}
use proofrail_evidence_api.Prelude.{
  ℕ, ◌-◌, Bool, true, false, ◌&&◌, ◌||◌, not, List, [], ◌∷◌, ◌++◌, ltb, leb, ◌==◌, if◌then◌else◌,
}

abbrev pub Codes : Type 0
Codes = List ℕ

abbrev pub codes : String → Codes
codes String.[] = []
codes (String.◌∷◌ c s) = code c ∷ codes s

abbrev pub within : ℕ → ℕ → ℕ → Bool
within low high c = leb low c && leb c high

-- the class `[A-Za-z0-9]`
unfoldable pub is_alnum : ℕ → Bool
is_alnum c = within 65 90 c || within 97 122 c || within 48 57 c

-- the characters that `\s` matches and that `str.strip` removes
unfoldable pub is_space : ℕ → Bool
is_space c =
    within 9 13 c
    || within 28 32 c
    || c == 133
    || c == 160
    || c == 5760
    || within 8192 8202 c
    || c == 8232
    || c == 8233
    || c == 8239
    || c == 8287
    || c == 12288

-- the full upper cases that hold an ASCII letter and are not those of `a` to `z`
unfoldable pub special_upper : ℕ → Codes
special_upper c =
    if c == 223
    then 83 ∷ 83 ∷ []
    else if c == 305
    then 73 ∷ []
    else if c == 329
    then 700 ∷ 78 ∷ []
    else if c == 383
    then 83 ∷ []
    else if c == 496
    then 74 ∷ 780 ∷ []
    else if c == 7830
    then 72 ∷ 817 ∷ []
    else if c == 7831
    then 84 ∷ 776 ∷ []
    else if c == 7832
    then 87 ∷ 778 ∷ []
    else if c == 7833
    then 89 ∷ 778 ∷ []
    else if c == 7834
    then 65 ∷ 702 ∷ []
    else if c == 64256
    then 70 ∷ 70 ∷ []
    else if c == 64257
    then 70 ∷ 73 ∷ []
    else if c == 64258
    then 70 ∷ 76 ∷ []
    else if c == 64259
    then 70 ∷ 70 ∷ 73 ∷ []
    else if c == 64260
    then 70 ∷ 70 ∷ 76 ∷ []
    else if c == 64261
    then 83 ∷ 84 ∷ []
    else if c == 64262
    then 83 ∷ 84 ∷ []
    else c ∷ []

unfoldable pub upper_char : ℕ → Codes
upper_char c = if within 97 122 c then (c - 32) ∷ [] else special_upper c

unfoldable pub upper : Codes → Codes
upper [] = []
upper (c ∷ s) = upper_char c ++ upper s

-- `re.sub("[^…]+", " ", …)`: each run outside the class becomes one space; the flag tells whether
-- the scan is inside a run
unfoldable pub sub_runs : (ℕ → Bool) → Bool → Codes → Codes
sub_runs keep run [] = []
sub_runs keep run (c ∷ s) =
    let kept = sub_runs keep false s in
    let skipped = sub_runs keep true s in
    if keep c then c ∷ kept else if run then skipped else 32 ∷ skipped

unfoldable pub lstrip : Codes → Codes
lstrip [] = []
lstrip (c ∷ s) = let rest = lstrip s in if is_space c then rest else c ∷ s

-- a trailing space in front of a blank rest
unfoldable pub rstrip_char : ℕ → Codes → Codes
rstrip_char c [] = if is_space c then [] else c ∷ []
rstrip_char c (d ∷ s) = c ∷ d ∷ s

unfoldable pub rstrip : Codes → Codes
rstrip [] = []
rstrip (c ∷ s) = rstrip_char c (rstrip s)

unfoldable pub strip : Codes → Codes
strip s = rstrip (lstrip s)

unfoldable pub normalise_name : Codes → Codes
normalise_name name =
    let cleaned = strip (sub_runs is_alnum false (upper name)) in
    sub_runs (λ c. not (is_space c)) false cleaned

abbrev pub codes_eq : Codes → Codes → Bool
codes_eq [] [] = true
codes_eq [] (d ∷ t) = false
codes_eq (c ∷ s) [] = false
codes_eq (c ∷ s) (d ∷ t) = let rest = codes_eq s t in (c == d) && rest

-- `name in names`
unfoldable pub contains : Codes → List Codes → Bool
contains name [] = false
contains name (n ∷ names) = let rest = contains name names in codes_eq name n || rest

unfoldable pub add : Codes → List Codes → List Codes
add name names = if contains name names then names else names ++ name ∷ []

-- the loop of `normalised_name_set`, with the set so far; an empty name is left out
unfoldable pub add_normalised : List Codes → List Codes → List Codes
add_normalised [] out = out
add_normalised (name ∷ names) out =
    let normalised = normalise_name name in
    add_normalised names (if codes_eq normalised [] then out else add normalised out)

unfoldable pub normalised_name_set : List Codes → List Codes
normalised_name_set names = add_normalised names []
