-- ===== src/OrderedDict.antt =====
-- Python's `collections.OrderedDict` with text keys, as the service's caches and the rate limiter
-- use it: a list of entries, the oldest first.
use proofrail_evidence_api.Prelude.{
  length-append, ◌+◌, ℕ, ◌≤◌, ◌<◌, String, ◌≡◌, refl, Option, none, some, List, [], ◌∷◌, ◌++◌,
  arith, leb, ltb, if◌then◌else◌, str_eq, eq_iff, length, Bool-cases, inl, inr,
}

abbrev pub OrderedDict {ℓ} : Type ℓ → Type ℓ
OrderedDict V = List (String × V)

module _ {ℓ} {V : Type ℓ} where
  -- `d.get(k)`
  unfoldable pub get : OrderedDict V → String → Option V
  get [] k = none
  get ((j, v) ∷ d) k = if str_eq j k then some v else get d k

  -- `del d[k]`
  unfoldable pub remove : OrderedDict V → String → OrderedDict V
  remove [] k = []
  remove ((j, v) ∷ d) k = let rest = remove d k in if str_eq j k then rest else (j, v) ∷ rest

  -- `d[k] = v`: a key that is there keeps its place, a new one goes to the end
  unfoldable pub set : OrderedDict V → String → V → OrderedDict V
  set [] k v = (k, v) ∷ []
  set ((j, w) ∷ d) k v = if str_eq j k then (j, v) ∷ d else (j, w) ∷ set d k v

  -- `d[k] = v; d.move_to_end(k)`
  unfoldable pub set_last : OrderedDict V → String → V → OrderedDict V
  unfolding remove
  set_last d k v = remove d k ++ (k, v) ∷ []

  -- `while len(d) > n: d.popitem(last=False)`
  unfoldable pub trim : ℕ → OrderedDict V → OrderedDict V
  trim n [] = []
  trim n (e ∷ d) = let rest = trim n d in if ltb n (length (e ∷ d)) then rest else e ∷ d

  -- `while len(d) >= n: d.popitem(last=False)`; `none` is the KeyError of an empty dict
  unfoldable pub make_room : ℕ → OrderedDict V → Option (OrderedDict V)
  make_room n [] = if leb n 0 then none else some []
  make_room n (e ∷ d) =
      let rest = make_room n d in if leb n (length (e ∷ d)) then rest else some (e ∷ d)

  pub get-remove :
      (d : OrderedDict V) (k j : String)
      → get (remove d k) j ≡ (if str_eq k j then none else get d j)
  unfolding get remove
  get-remove [] k j = ground arith
  get-remove ((i, v) ∷ d) k j = ground (arith, get-remove d k j, eq_iff i k, eq_iff i j, eq_iff k j)

  pub get-snoc :
      (d : OrderedDict V) (k j : String) (v : V)
      → get (d ++ (k, v) ∷ []) j
        ≡ (elim (get d j) [ some w ↦ some w | none ↦ if str_eq k j then some v else none ])
  unfolding get
  get-snoc [] k j v = refl
  get-snoc ((i, w) ∷ d) k j v = ground (arith, get-snoc d k j v)

  pub get-set_last :
      (d : OrderedDict V) (k j : String) (v : V)
      → get (set_last d k v) j ≡ (if str_eq k j then some v else get d j)
  unfolding set_last
  get-set_last d k j v = ground (arith, get-snoc (remove d k) k j v, get-remove d k j)

  pub get-set :
      (d : OrderedDict V) (k j : String) (v : V)
      → get (set d k v) j ≡ (if str_eq k j then some v else get d j)
  unfolding get set
  get-set [] k j v = refl
  get-set ((i, w) ∷ d) k j v = ground (arith, get-set d k j v, eq_iff i k, eq_iff i j, eq_iff k j)

  pub length-remove-le : (d : OrderedDict V) (k : String) → length (remove d k) ≤ length d
  unfolding remove
  length-remove-le [] k = omega arith
  length-remove-le (e ∷ d) k = ground (arith, length-remove-le d k)

  -- a key that is there gives its place up
  pub length-remove-lt :
      (d : OrderedDict V) (k : String) (v : V) → get d k ≡ some v → length (remove d k) < length d
  unfolding get remove
  length-remove-lt [] k v h = absurd (ground arith)
  length-remove-lt ((j, w) ∷ d) k v h = ground (arith, length-remove-lt d k v, length-remove-le d k)

  pub length-trim-le : (n : ℕ) (d : OrderedDict V) → length (trim n d) ≤ n
  unfolding trim
  length-trim-le n [] = omega arith
  length-trim-le n (e ∷ d) = ground (arith, length-trim-le n d)

  pub trim_fits : (n : ℕ) (d : OrderedDict V) → length d ≤ n → trim n d ≡ d
  unfolding trim
  trim_fits n [] h = refl
  trim_fits n (e ∷ d) h = ground arith

  pub length-make_room-lt : (n : ℕ) (d d' : OrderedDict V) → make_room n d ≡ some d' → length d' < n
  unfolding make_room
  length-make_room-lt n [] d' h = ground arith
  length-make_room-lt n (e ∷ d) d' h = ground (arith, length-make_room-lt n d d')

  pub make_room_fits : (n : ℕ) (d : OrderedDict V) → length d < n → make_room n d ≡ some d
  unfolding make_room
  make_room_fits n [] h = ground arith
  make_room_fits n (e ∷ d) h = ground arith

  pub make_room_pos :
      (n : ℕ) (d : OrderedDict V) → 0 < n → (d' : OrderedDict V) × (make_room n d ≡ some d')
  unfolding make_room
  make_room_pos n [] h = ([], ground arith)
  make_room_pos n (e ∷ d) h = elim (Bool-cases (leb n (length (e ∷ d)))) [
    | inl full ↦ let (d', r) = make_room_pos n d h in (d', rw full r)
    | inr fits ↦ (e ∷ d, rw fits)
  ]

  pub length-set_last-le :
      (d : OrderedDict V) (k : String) (v : V) → length (set_last d k v) ≤ length d + 1
  unfolding set_last
  length-set_last-le d k v =
      omega (arith, length-append (remove d k) ((k, v) ∷ []), length-remove-le d k)

  -- the key is there: its entry moves
  pub length-set_last_hit :
      (d : OrderedDict V) (k : String) (v w : V)
      → get d k ≡ some v
      → length (set_last d k w) ≤ length d
  unfolding set_last
  length-set_last_hit d k v w h =
      omega (arith, length-append (remove d k) ((k, w) ∷ []), length-remove-lt d k v h)
