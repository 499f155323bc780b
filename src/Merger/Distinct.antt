-- ===== src/Merger/Distinct.antt =====
-- tools/src/file_format/merger.rs: what comes out of the merge of the records at one location.
use mozsearch.Prelude.{
  ◌≡◌, refl, ap, ◌∙◌, Bool, true, false, Option, none, some, List, [], ◌∷◌, ◌++◌, map, list_eq,
  arith, All, Bool-cases, inl, inr,
}
use mozsearch.Analysis.Source.{
  Text, ExpansionInfo, expands_to, in_expansion_at, AnalysisSource, text_leb, insert_sorted, sort,
  dedup_from, dedup,
}
use mozsearch.Analysis.Merge.{merge_expansions, merge}
use mozsearch.Analysis.Levels.{first_ones}
use mozsearch.Analysis.Symbols.{IsLevelled, best, merge_symbols-first_ones, kept-IsLevelled}
use mozsearch.Merger.{insert_by_pretty, sort_by_pretty, merge_adjacent, merge_bucket}

-- Whether an info is absent or of one sort: `true` for expansions, `false` for places of expansion.
abbrev pub of_sort : Bool → Option ExpansionInfo → Bool
of_sort b none = true
of_sort true (some (expands_to a)) = true
of_sort true (some (in_expansion_at a)) = false
of_sort false (some (expands_to a)) = false
of_sort false (some (in_expansion_at a)) = true

-- A record that can be merged with every other one of its name.
abbrev pub Fits : Bool → AnalysisSource → Type 0
Fits b s = IsLevelled s × (of_sort b s.expansion_info ≡ true)

merge_expansions-of_sort :
    (b : Bool) (x y : Option ExpansionInfo)
    → of_sort b x ≡ true
    → of_sort b y ≡ true
    → (r : Option ExpansionInfo) × (merge_expansions x y ≡ some r) × (of_sort b r ≡ true)
unfolding merge_expansions
merge_expansions-of_sort b none none h k = (none, refl, refl)
merge_expansions-of_sort b none (some y) h k = (some y, refl, k)
merge_expansions-of_sort b (some x) none h k = (some x, refl, h)
merge_expansions-of_sort true (some (expands_to x)) (some (expands_to y)) h k = (_, refl, refl)
merge_expansions-of_sort false (some (in_expansion_at x)) (some (in_expansion_at y)) h k =
    (_, refl, refl)
merge_expansions-of_sort true (some (in_expansion_at x)) y h k = ground arith
merge_expansions-of_sort true x (some (in_expansion_at y)) h k = ground arith
merge_expansions-of_sort false (some (expands_to x)) y h k = ground arith
merge_expansions-of_sort false x (some (expands_to y)) h k = ground arith

insert_by_pretty-map :
    (x : AnalysisSource) (ys : List AnalysisSource)
    → map (λ s. s.pretty) (insert_by_pretty x ys) ≡ insert_sorted x.pretty (map (λ s. s.pretty) ys)
unfolding insert_by_pretty insert_sorted
insert_by_pretty-map x [] = refl
insert_by_pretty-map x (y ∷ ys) = elim (Bool-cases (text_leb x.pretty y.pretty)) [
  | inl e ↦ rw e refl
  | inr e ↦ rw e (ap (λ r. y.pretty ∷ r) (insert_by_pretty-map x ys))
]

sort_by_pretty-map :
    (xs : List AnalysisSource)
    → map (λ s. s.pretty) (sort_by_pretty xs) ≡ sort (map (λ s. s.pretty) xs)
unfolding sort_by_pretty sort
sort_by_pretty-map [] = refl
sort_by_pretty-map (x ∷ xs) =
    insert_by_pretty-map x (sort_by_pretty xs) ∙ ap (insert_sorted x.pretty) (sort_by_pretty-map xs)

insert_by_pretty-All :
    (P : AnalysisSource → Type 0) (x : AnalysisSource) (ys : List AnalysisSource)
    → P x
    → All P ys
    → All P (insert_by_pretty x ys)
unfolding insert_by_pretty
insert_by_pretty-All P x [] h k = (h, tt)
insert_by_pretty-All P x (y ∷ ys) h (k, ks) = elim (Bool-cases (text_leb x.pretty y.pretty)) [
  | inl e ↦ rw e (h, (k, ks))
  | inr e ↦ rw e (k, insert_by_pretty-All P x ys h ks)
]

sort_by_pretty-All :
    (P : AnalysisSource → Type 0) (xs : List AnalysisSource) → All P xs → All P (sort_by_pretty xs)
unfolding sort_by_pretty
sort_by_pretty-All P [] h = tt
sort_by_pretty-All P (x ∷ xs) (h, hs) =
    insert_by_pretty-All P x (sort_by_pretty xs) h (sort_by_pretty-All P xs hs)

module _ (unique : List Text → List Text) (u : (ts : List Text) → unique ts ≡ first_ones [] ts)
    (b : Bool) where
  merge-Fits :
      (s o : AnalysisSource)
      → Fits b s
      → Fits b o
      → list_eq s.pretty o.pretty ≡ true
      → (r : AnalysisSource) × (merge unique s o ≡ some r) × (r.pretty ≡ s.pretty) × Fits b r
  unfolding merge
  merge-Fits s o (hs, ks) (ho, ko) p =
      let (info, e, f) = merge_expansions-of_sort b s.expansion_info o.expansion_info ks ko in
      (
        _,
        rw (p, merge_symbols-first_ones unique u s o hs ho, e) refl,
        refl,
        (
          kept-IsLevelled s o s.confidence o.confidence (best s o)
              (first_ones [] (o.syms ++ s.syms)) info,
          f,
        ),
      )

  merge_adjacent-dedup_from :
      (e : AnalysisSource) (xs : List AnalysisSource)
      → Fits b e
      → All (Fits b) xs
      → (rs : List AnalysisSource) × (merge_adjacent unique (some e) xs ≡ some rs)
        × (map (λ s. s.pretty) rs ≡ dedup_from e.pretty (map (λ s. s.pretty) xs))
        × All (Fits b) rs
  unfolding merge_adjacent dedup_from
  merge_adjacent-dedup_from e [] h hs = (e ∷ [], refl, refl, (h, tt))
  merge_adjacent-dedup_from e (x ∷ xs) h (k, ks) = elim (Bool-cases (list_eq e.pretty x.pretty)) [
    | inl q ↦
        let (m, c, p, f) = merge-Fits e x h k q in
        let (rs, c', p', f') = merge_adjacent-dedup_from m xs f ks in
        (rs, rw (q, c) c', rw q (p' ∙ ap (λ t. dedup_from t (map (λ s. s.pretty) xs)) p), f')
    | inr q ↦
        let (rs, c', p', f') = merge_adjacent-dedup_from x xs k ks in
        (e ∷ rs, rw (q, c') refl, rw q (ap (λ r. e.pretty ∷ r) p'), (h, f'))
  ]

  merge_adjacent-dedup :
      (xs : List AnalysisSource)
      → All (Fits b) xs
      → (rs : List AnalysisSource) × (merge_adjacent unique none xs ≡ some rs)
        × (map (λ s. s.pretty) rs ≡ dedup (map (λ s. s.pretty) xs))
        × All (Fits b) rs
  unfolding merge_adjacent dedup
  merge_adjacent-dedup [] h = ([], refl, refl, tt)
  merge_adjacent-dedup (x ∷ xs) (h, hs) = merge_adjacent-dedup_from x xs h hs

-- If `unique` keeps the elements not seen before, records with as many levels as symbols, and with
-- no expansion infos but of one sort, are merged without a panic to records with the same two
-- properties, and their names are the sorted names without repetitions.
pub merge_bucket-dedup :
    (unique : List Text → List Text)
    → ((ts : List Text) → unique ts ≡ first_ones [] ts)
    → (b : Bool) (records : List AnalysisSource) → All (Fits b) records
    → (rs : List AnalysisSource) × (merge_bucket unique records ≡ some rs)
      × (map (λ s. s.pretty) rs ≡ dedup (sort (map (λ s. s.pretty) records)))
      × All (Fits b) rs
unfolding merge_bucket
merge_bucket-dedup unique u b records h =
    let (rs, c, p, f) =
      merge_adjacent-dedup unique u b (sort_by_pretty records)
        (sort_by_pretty-All (Fits b) records h) in
    (rs, c, p ∙ ap dedup (sort_by_pretty-map records), f)
