-- ===== src/Analysis/Merge.antt =====
-- tools/src/file_format/analysis.rs, AnalysisSource::merge, part by part and as a whole.
use mozsearch.Prelude.{◌&&◌, Option, none, some, List, [], ◌++◌, list_eq, if◌then◌else◌}
use mozsearch.Prelude.Text.{◌>>=◌}
use mozsearch.Analysis.Locations.{union}
use mozsearch.Analysis.Source.{
  Text, ConfidenceLevel, append_map, merge_map, ExpansionInfo, expands_to, in_expansion_at,
  AnalysisSource, sort, dedup, confidences, level_loop, levels_of, Levels,
}

-- The symbols and the confidence after the merge.
abbrev pub Named : Type 0
Named = List Text × Option (List ConfidenceLevel)

abbrev pub with_levels : Levels → Option Named
with_levels (syms, m) = levels_of syms m >>= λ cs. some (syms, some cs)

module _ (unique : List Text → List Text) where
  -- The branch for two records of full confidence.
  abbrev pub merge_plain : AnalysisSource → AnalysisSource → Option Named
  merge_plain s o = some (unique (o.syms ++ s.syms), none)

-- The branch that computes a level for each symbol.
unfoldable pub merge_levels : AnalysisSource → AnalysisSource → Option Named
unfolding level_loop levels_of
merge_levels s o =
    with_levels (level_loop (o.syms ++ s.syms) (confidences o ++ confidences s) ([], []))

abbrev pub choose_symbols :
    Option (List ConfidenceLevel)
    → Option (List ConfidenceLevel)
    → Option Named
    → Option Named
    → Option Named
choose_symbols none none plain levels = plain
choose_symbols _ _ plain levels = levels

unfoldable pub merge_symbols :
    (List Text → List Text) → AnalysisSource → AnalysisSource → Option Named
unfolding merge_levels
merge_symbols unique s o =
    choose_symbols s.confidence o.confidence (merge_plain unique s o) (merge_levels s o)

-- `if let Some(t) = theirs { ours.get_or_insert(t) }`
abbrev pub get_or_insert : Option Text → Option Text → Option Text
get_or_insert (some t) theirs = some t
get_or_insert none theirs = theirs

-- The match on both expansion infos.
unfoldable pub merge_expansions :
    Option ExpansionInfo → Option ExpansionInfo → Option (Option ExpansionInfo)
unfolding merge_map append_map
merge_expansions a none = some a
merge_expansions none (some b) = some (some b)
merge_expansions (some (expands_to a)) (some (expands_to b)) =
    some (some (expands_to (merge_map append_map a b)))
merge_expansions (some (in_expansion_at a)) (some (in_expansion_at b)) =
    some (some (in_expansion_at (merge_map (merge_map (λ v w. v ++ w)) a b)))
merge_expansions (some (expands_to a)) (some (in_expansion_at b)) = none
merge_expansions (some (in_expansion_at a)) (some (expands_to b)) = none

abbrev pub merged : AnalysisSource → AnalysisSource → Named → Option ExpansionInfo → AnalysisSource
merged s o (syms, confidence) info = record s {
  no_crossref = s.no_crossref && o.no_crossref;
  syntax = dedup (sort (s.syntax ++ o.syntax));
  syms = syms;
  confidence = confidence;
  nesting_range = union s.nesting_range o.nesting_range;
  type_pretty = get_or_insert s.type_pretty o.type_pretty;
  type_sym = get_or_insert s.type_sym o.type_sym;
  expansion_info = info;
}

-- `merge`: the record that `self` becomes.
unfoldable pub merge :
    (List Text → List Text) → AnalysisSource → AnalysisSource → Option AnalysisSource
unfolding merge_symbols merge_expansions
merge unique s o =
    let rest = merge_symbols unique s o >>= λ named.
    merge_expansions s.expansion_info o.expansion_info >>= λ info. some (merged s o named info) in
    if list_eq s.pretty o.pretty then rest else none
