-- ===== src/Analysis/Symbols.antt =====
-- tools/src/file_format/analysis.rs: what a merge does to the symbols and their confidence.
use mozsearch.Prelude.{
  ℕ, zero, suc, ◌≡◌, refl, Bool, true, false, Option, none, some, List, [], ◌∷◌, ◌++◌, map,
  list_eq_iff, length, length-append, replicate, arith,
}
use mozsearch.Analysis.Source.{
  Text, ConfidenceLevel, concrete, ExpansionInfo, expands_to, in_expansion_at, AnalysisSource,
  confidences, level_loop, get,
}
use mozsearch.Analysis.Merge.{
  merge_levels, choose_symbols, merge_symbols, merge_expansions, merged, merge,
}
use mozsearch.Analysis.Levels.{first_ones, highest}
use mozsearch.Analysis.LevelLoop.{
  level_loop-first_ones, get-level_loop-none, levels_of-All, first_ones-All,
}

-- A record has one level for each symbol, or none at all.
abbrev pub IsLevelled : AnalysisSource → Type 0
IsLevelled s = length (confidences s) ≡ length s.syms

abbrev all_syms : AnalysisSource → AnalysisSource → List Text
all_syms s o = o.syms ++ s.syms

-- The highest level of a symbol in both records.
abbrev pub best : AnalysisSource → AnalysisSource → Text → ConfidenceLevel
best s o t = highest t (all_syms s o) (confidences o ++ confidences s)

abbrev pub kept :
    Option (List ConfidenceLevel)
    → Option (List ConfidenceLevel)
    → List ConfidenceLevel
    → Option (List ConfidenceLevel)
kept none none cs = none
kept _ _ cs = some cs

merge_levels-first_ones :
    (s o : AnalysisSource)
    → IsLevelled s
    → IsLevelled o
    → merge_levels s o
      ≡ some (
        first_ones [] (o.syms ++ s.syms),
        some (map (best s o) (first_ones [] (o.syms ++ s.syms))),
      )
unfolding merge_levels
merge_levels-first_ones s o hs ho =
    let l : length (all_syms s o) ≡ length (confidences o ++ confidences s) =
      omega (
        arith,
        length-append o.syms s.syms,
        length-append (confidences o) (confidences s),
        hs,
        ho,
      ) in
    let syms = level_loop-first_ones (all_syms s o) (confidences o ++ confidences s) [] [] l refl in
    let levels =
      levels_of-All (best s o)
        (level_loop (all_syms s o) (confidences o ++ confidences s) ([], [])).1
        (first_ones [] (all_syms s o))
        (first_ones-All _ [] (all_syms s o) (λ t k.
          get-level_loop-none t (all_syms s o) (confidences o ++ confidences s) [] [] l k
            (unfold get in refl))) in
    rw (syms, levels) refl

choose-kept :
    (c d : Option (List ConfidenceLevel)) (ts : List Text) (cs : List ConfidenceLevel)
    → choose_symbols c d (some (ts, none)) (some (ts, some cs)) ≡ some (ts, kept c d cs)
choose-kept none none ts cs = refl
choose-kept none (some d) ts cs = refl
choose-kept (some c) d ts cs = refl

-- For records with as many levels as symbols, and if `unique` keeps the elements not seen before, a
-- merge keeps the first occurrence of every symbol, the other record's first, and gives each the
-- highest level it has in either record, unless both records have no levels, when the merged record
-- has none.
pub merge_symbols-first_ones :
    (unique : List Text → List Text)
    → ((ts : List Text) → unique ts ≡ first_ones [] ts)
    → (s o : AnalysisSource) → IsLevelled s
    → IsLevelled o
    → merge_symbols unique s o
      ≡ some (
        first_ones [] (o.syms ++ s.syms),
        kept s.confidence o.confidence (map (best s o) (first_ones [] (o.syms ++ s.syms))),
      )
unfolding merge_symbols
merge_symbols-first_ones unique u s o hs ho =
    rw (u (o.syms ++ s.syms), merge_levels-first_ones s o hs ho)
      (choose-kept s.confidence o.confidence (first_ones [] (o.syms ++ s.syms)) _)

length-map : (f : Text → ConfidenceLevel) (ts : List Text) → length (map f ts) ≡ length ts
length-map f [] = refl
length-map f (t ∷ ts) = omega (arith, length-map f ts)

length-replicate : (n : ℕ) → length (replicate n concrete) ≡ n
length-replicate zero = refl
length-replicate (suc n) = omega (arith, length-replicate n)

-- The two sorts of expansion infos do not meet.
abbrev pub compatible : Option ExpansionInfo → Option ExpansionInfo → Bool
compatible (some (expands_to a)) (some (in_expansion_at b)) = false
compatible (some (in_expansion_at a)) (some (expands_to b)) = false
compatible _ _ = true

merge_expansions-compatible :
    (a b : Option ExpansionInfo)
    → compatible a b ≡ true
    → (r : Option ExpansionInfo) × (merge_expansions a b ≡ some r)
unfolding merge_expansions
merge_expansions-compatible none none h = (none, refl)
merge_expansions-compatible none (some b) h = (some b, refl)
merge_expansions-compatible (some a) none h = (some a, refl)
merge_expansions-compatible (some (expands_to a)) (some (expands_to b)) h = (_, refl)
merge_expansions-compatible (some (in_expansion_at a)) (some (in_expansion_at b)) h = (_, refl)
merge_expansions-compatible (some (expands_to a)) (some (in_expansion_at b)) h = ground arith
merge_expansions-compatible (some (in_expansion_at a)) (some (expands_to b)) h = ground arith

pub kept-IsLevelled :
    (s o : AnalysisSource) (c d : Option (List ConfidenceLevel)) (f : Text → ConfidenceLevel)
    (ts : List Text) (info : Option ExpansionInfo)
    → IsLevelled (merged s o (ts, kept c d (map f ts)) info)
unfolding confidences
kept-IsLevelled s o none none f ts info = length-replicate (length ts)
kept-IsLevelled s o none (some d) f ts info = length-map f ts
kept-IsLevelled s o (some c) d f ts info = length-map f ts

-- If `unique` keeps the elements not seen before, two records of one pretty name, with as many
-- levels as symbols and with expansion infos that are not of different sorts, are merged without a
-- panic, and the merged record has this pretty name and as many levels as symbols.
pub merge-IsLevelled :
    (unique : List Text → List Text)
    → ((ts : List Text) → unique ts ≡ first_ones [] ts)
    → (s o : AnalysisSource) → IsLevelled s
    → IsLevelled o
    → s.pretty ≡ o.pretty
    → compatible s.expansion_info o.expansion_info ≡ true
    → (r : AnalysisSource) × (merge unique s o ≡ some r) × (r.pretty ≡ s.pretty) × IsLevelled r
unfolding merge
merge-IsLevelled unique u s o hs ho p c =
    let (info, e) = merge_expansions-compatible s.expansion_info o.expansion_info c in
    (
      _,
      rw ((list_eq_iff s.pretty o.pretty).1 p, merge_symbols-first_ones unique u s o hs ho, e) refl,
      refl,
      kept-IsLevelled s o s.confidence o.confidence (best s o) (first_ones [] (o.syms ++ s.syms))
          info,
    )
