-- ===== src/Analysis/Maps.antt =====
-- tools/src/file_format/analysis.rs: the laws of the maps that a merge updates.
use mozsearch.Prelude.{
  ◌≡◌, refl, sym, subst, ◌∙◌, false, Option, none, some, [], ◌∷◌, ◌++◌, list_eq, list_eq_iff, arith,
  Bool-cases, Option-cases, inl, inr,
}
use mozsearch.Analysis.Source.{Text, Map, get, modify_or_insert, merge_map}

module _ {ℓ} {A : Type ℓ} where
  pub get-append_some :
      (t : Text) (m n : Map A) (d : A) → get t m ≡ some d → get t (m ++ n) ≡ some d
  unfolding get
  get-append_some t [] n d h = ground arith
  get-append_some t ((k, v) ∷ m) n d h = ground (arith, get-append_some t m n d)

  pub get-append_none : (t : Text) (m n : Map A) → get t m ≡ none → get t (m ++ n) ≡ get t n
  unfolding get
  get-append_none t [] n h = refl
  get-append_none t ((k, v) ∷ m) n h = ground (arith, get-append_none t m n)

  pub get-modify_same :
      (t : Text) (f : A → A) (v : A) (m : Map A) (d : A)
      → get t m ≡ some d
      → get t (modify_or_insert t f v m) ≡ some (f d)
  unfolding get modify_or_insert
  get-modify_same t f v [] d h = ground arith
  get-modify_same t f v ((k, w) ∷ m) d h = ground (arith, get-modify_same t f v m d)

  pub get-modify_other :
      (s t : Text) (f : A → A) (v : A) (m : Map A)
      → list_eq s t ≡ false
      → get t (modify_or_insert s f v m) ≡ get t m
  unfolding get modify_or_insert
  get-modify_other s t f v [] h = rw h refl
  get-modify_other s t f v ((k, w) ∷ m) h =
      ground (arith, get-modify_other s t f v m, list_eq_iff k s)

  get-modify_new :
      (t : Text) (f : A → A) (v : A) (m : Map A)
      → get t m ≡ none
      → get t (modify_or_insert t f v m) ≡ some v
  unfolding get modify_or_insert
  get-modify_new t f v [] h = rw ((list_eq_iff t t).1 refl) refl
  get-modify_new t f v ((k, w) ∷ m) h = ground (arith, get-modify_new t f v m)

  -- Every key has one entry.
  abbrev pub IsMap : Map A → Type ℓ
  IsMap [] = Unit
  IsMap ((k, v) ∷ m) = (get k m ≡ none) × IsMap m

  abbrev pub combine : (A → A → A) → Option A → Option A → Option A
  combine f none o = o
  combine f (some v) none = some v
  combine f (some v) (some w) = some (f v w)

  get-modify :
      (f : A → A → A) (k : Text) (v : A) (a : Map A)
      → get k (modify_or_insert k (λ w. f w v) v a) ≡ combine f (get k a) (some v)
  get-modify f k v a = elim (Option-cases (get k a)) [
    | inl e ↦ rw e (get-modify_new k (λ w. f w v) v a e)
    | inr (d, e) ↦ rw e (get-modify_same k (λ w. f w v) v a d e)
  ]

  pub combine-none : (f : A → A → A) (o : Option A) → combine f o none ≡ o
  combine-none f none = refl
  combine-none f (some v) = refl

  -- After the loop over the entries of `b`, a key that both maps have holds both values merged, and
  -- one that only one map has holds its value.
  pub get-merge_map :
      (f : A → A → A) (a b : Map A) (k : Text)
      → IsMap b
      → get k (merge_map f a b) ≡ combine f (get k a) (get k b)
  unfolding merge_map get
  get-merge_map f a [] k h = sym (combine-none f (get k a))
  get-merge_map f a ((key, v) ∷ b) k (h, hs) = elim (Bool-cases (list_eq key k)) [
    | inl e ↦
        let q : key ≡ k = (list_eq_iff key k).0 e in
        let gone : get k b ≡ none = subst (λ x. get x b ≡ none) q h in
        get-merge_map f (modify_or_insert key (λ w. f w v) v a) b k hs
        ∙ rw (e, gone)
            (combine-none f _
              ∙ subst
                  (λ x. get k (modify_or_insert x (λ w. f w v) v a) ≡ combine f (get k a) (some v))
                  (sym q) (get-modify f k v a))
    | inr e ↦
        get-merge_map f (modify_or_insert key (λ w. f w v) v a) b k hs
        ∙ rw (e, get-modify_other key k (λ w. f w v) v a e) refl
  ]
