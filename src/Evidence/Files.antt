-- ===== src/Evidence/Files.antt =====
-- What a deletion leaves to be read in a directory.
use proofrail_evidence_api.Prelude.{
  String, Bool, true, none, some, [], ◌∷◌, ◌≡◌, refl, sym, arith, str_eq, eq_iff, filter, All,
  Bool-cases, inl, inr,
}
use proofrail_evidence_api.OrderedDict.{OrderedDict, get, remove, set}

module _ {V : Type 0} where
  -- a file that the filter keeps is read as before
  pub get-filter_kept :
      (p : String × V → Bool) (d : OrderedDict V) (k : String) (v : V)
      → get d k ≡ some v
      → p (k, v) ≡ true
      → get (filter p d) k ≡ some v
  unfolding get
  get-filter_kept p [] k v h kept = ground arith
  get-filter_kept p ((j, w) ∷ d) k v h kept = ground (arith, get-filter_kept p d k v, eq_iff j k)

  -- a file that is not there does not appear
  pub get-filter_missing :
      (p : String × V → Bool) (d : OrderedDict V) (k : String)
      → get d k ≡ none
      → get (filter p d) k ≡ none
  unfolding get
  get-filter_missing p [] k h = refl
  get-filter_missing p ((j, w) ∷ d) k h = ground (arith, get-filter_missing p d k)

  -- what is read after a filter passes its test and was there
  pub get-filter_passes :
      (p : String × V → Bool) (d : OrderedDict V) (k : String) (v : V)
      → get (filter p d) k ≡ some v
      → p (k, v) ≡ true
  unfolding get
  get-filter_passes p [] k v h = ground arith
  get-filter_passes p ((j, w) ∷ d) k v h = ground (arith, get-filter_passes p d k v, eq_iff j k)

  module _ (P : String × V → Type 0) where
    moved : (j k : String) (v w : V) → j ≡ k → v ≡ w → P (j, v) → P (k, w)
    moved j k v w same_name same_file h = rw (sym same_name, sym same_file) h

    -- what holds of every file holds of the one that is read
    pub All-get : (d : OrderedDict V) (k : String) (v : V) → All P d → get d k ≡ some v → P (k, v)
    unfolding get
    All-get [] k v a h = ground arith
    All-get ((j, w) ∷ d) k v a h = elim (Bool-cases (str_eq j k)) [
      | inl e ↦ let same : w ≡ v = ground (arith, e, h) in moved j k w v ((eq_iff j k).0 e) same a.0
      | inr e ↦ All-get d k v a.1 (simp (e) at h)
    ]

    pub All-set : (d : OrderedDict V) (k : String) (v : V) → All P d → P (k, v) → All P (set d k v)
    unfolding set
    All-set [] k v a h = (h, tt)
    All-set ((j, w) ∷ d) k v a h = elim (Bool-cases (str_eq j k)) [
      | inl e ↦ rw e (moved k j v v (sym ((eq_iff j k).0 e)) refl h, a.1)
      | inr e ↦ rw e (a.0, All-set d k v a.1 h)
    ]

    pub All-remove : (d : OrderedDict V) (k : String) → All P d → All P (remove d k)
    unfolding remove
    All-remove [] k a = tt
    All-remove ((j, w) ∷ d) k a = elim (Bool-cases (str_eq j k)) [
      | inl e ↦ rw e (All-remove d k a.1)
      | inr e ↦ rw e (a.0, All-remove d k a.1)
    ]
