-- ===== src/Merger.antt =====
-- tools/src/file_format/merger.rs: the merge of the records at one location. Names compare as
-- texts; a stable sort is the insertion sort that keeps equal names in their order.
mod Distinct
mod Tests
use mozsearch.Prelude.{Option, none, some, List, [], ◌∷◌, list_eq, if◌then◌else◌}
use mozsearch.Prelude.Text.{◌>>=◌}
use mozsearch.Analysis.Source.{Text, AnalysisSource, text_leb}
use mozsearch.Analysis.Merge.{merge}

unfoldable pub insert_by_pretty : AnalysisSource → List AnalysisSource → List AnalysisSource
insert_by_pretty x [] = x ∷ []
insert_by_pretty x (y ∷ ys) =
    let rest = insert_by_pretty x ys in if text_leb x.pretty y.pretty then x ∷ y ∷ ys else y ∷ rest

-- `sort_by(|s1, s2| s1.pretty.cmp(&s2.pretty))`
unfoldable pub sort_by_pretty : List AnalysisSource → List AnalysisSource
unfolding insert_by_pretty
sort_by_pretty [] = []
sort_by_pretty (x ∷ xs) = insert_by_pretty x (sort_by_pretty xs)

-- The loop over the records with `last_entry`, and the push of the last one behind it.
unfoldable pub merge_adjacent :
    (List Text → List Text)
    → Option AnalysisSource
    → List AnalysisSource
    → Option (List AnalysisSource)
merge_adjacent unique none [] = some []
merge_adjacent unique (some e) [] = some (e ∷ [])
merge_adjacent unique none (x ∷ xs) = merge_adjacent unique (some x) xs
merge_adjacent unique (some e) (x ∷ xs) =
    let same = merge unique e x >>= λ m. merge_adjacent unique (some m) xs in
    let other = merge_adjacent unique (some x) xs >>= λ rest. some (e ∷ rest) in
    if list_eq e.pretty x.pretty then same else other

unfoldable pub merge_bucket :
    (List Text → List Text) → List AnalysisSource → Option (List AnalysisSource)
unfolding sort_by_pretty merge_adjacent
merge_bucket unique records = merge_adjacent unique none (sort_by_pretty records)
