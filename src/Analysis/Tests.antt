-- ===== src/Analysis/Tests.antt =====
-- Runs of analysis.rs at concrete inputs.
use mozsearch.Prelude.{ℕ, ◌≡◌, refl, false, none, some, List, [], ◌∷◌, ◌++◌, map, codes, arith}
use mozsearch.Analysis.Locations.{
  Location, LineRange, SourceRange, print_location, parse_location, print_line_range,
  parse_line_range, print_source_range, parse_source_range, union,
}
use mozsearch.Prelude.Text.{padded, decimal}
use mozsearch.Analysis.RoundTrips.{
  parse_location-print_location, parse_line_range-print_line_range,
  parse_source_range-print_source_range,
}
use mozsearch.Analysis.Union.{Encloses, union-Encloses}
use mozsearch.Analysis.Source.{
  Text, Map, get, AnalysisSource, concrete, cpp_template_heuristic, in_expansion_at, confidences,
}
use mozsearch.Analysis.Merge.{merge, merge_symbols, merge_expansions}
use mozsearch.Analysis.Levels.{first_ones}
use mozsearch.Analysis.Maps.{combine}
use mozsearch.Analysis.Expansions.{platform_value, merge_expansions-platform_value}
use mozsearch.Analysis.Symbols.{IsLevelled, best, merge_symbols-first_ones, merge-IsLevelled}

abbrev a_location : Location
a_location = record { lineno = 12; col_start = 7; col_end = 19 }

abbrev a_line_range : LineRange
a_line_range = record { start_lineno = 3; end_lineno = 40 }

abbrev a_range : SourceRange
a_range = record { start_lineno = 3; start_col = 8; end_lineno = 4; end_col = 0 }

abbrev b_range : SourceRange
b_range = record { start_lineno = 3; start_col = 5; end_lineno = 3; end_col = 9 }

print_a_location : print_location a_location ≡ codes "00012:7-19"
unfolding print_location padded decimal
print_a_location = refl

parse_location-print_location_example : parse_location (print_location a_location) ≡ some a_location
parse_location-print_location_example =
    parse_location-print_location a_location (ground arith) (ground arith) (ground arith)

parse_line_range-print_line_range_example :
    parse_line_range (print_line_range a_line_range) ≡ some a_line_range
parse_line_range-print_line_range_example =
    parse_line_range-print_line_range a_line_range (ground arith) (ground arith)

parse_source_range-print_source_range_example :
    parse_source_range (print_source_range a_range) ≡ some a_range
parse_source_range-print_source_range_example =
    parse_source_range-print_source_range a_range (ground arith) (ground arith) (ground arith)
      (ground arith)

abbrev around : SourceRange
around = record { start_lineno = 1; start_col = 0; end_lineno = 9; end_col = 2 }

union-Encloses_example :
    Encloses (union a_range b_range) a_range
    × Encloses (union a_range b_range) b_range
    × Encloses around (union a_range b_range)
union-Encloses_example =
    union-Encloses a_range b_range around (λ e. ground arith) (λ e. ground arith) (refl, refl)
      (refl, refl)

-- Two platforms' records of one method.
abbrev a_source : AnalysisSource
a_source = record {
  syntax = codes "def" ∷ codes "function" ∷ [];
  pretty = codes "function f";
  syms = codes "f_win" ∷ codes "f" ∷ [];
  no_crossref = false;
  nesting_range = a_range;
  type_pretty = none;
  type_sym = none;
  arg_ranges = [];
  expansion_info = none;
  confidence = none;
}

abbrev b_source : AnalysisSource
b_source = record a_source {
  syms = codes "f_mac" ∷ codes "f" ∷ [];
  type_pretty = some (codes "int");
  confidence = some (concrete ∷ cpp_template_heuristic ∷ []);
}

abbrev three_syms : List Text
three_syms = codes "f_mac" ∷ codes "f" ∷ codes "f_win" ∷ []

merge_symbols-first_ones_example :
    merge_symbols (first_ones []) a_source b_source
    ≡ some (
      first_ones [] (b_source.syms ++ a_source.syms),
      some (map (best a_source b_source) (first_ones [] (b_source.syms ++ a_source.syms))),
    )
unfolding confidences
merge_symbols-first_ones_example =
    merge_symbols-first_ones (first_ones []) (λ ts. refl) a_source b_source refl refl

merge_three :
    merge_symbols (first_ones []) a_source b_source
    ≡ some (three_syms, some (concrete ∷ concrete ∷ concrete ∷ []))
unfolding merge_symbols confidences
merge_three = refl

merge-IsLevelled_example :
    (r : AnalysisSource) × (merge (first_ones []) a_source b_source ≡ some r)
    × (r.pretty ≡ a_source.pretty)
    × IsLevelled r
unfolding confidences
merge-IsLevelled_example =
    merge-IsLevelled (first_ones []) (λ ts. refl) a_source b_source refl refl refl refl

abbrev a_offsets : Map (Map (List ℕ))
a_offsets = (codes "S", (codes "linux", 3 ∷ []) ∷ []) ∷ []

abbrev b_offsets : Map (Map (List ℕ))
b_offsets = (codes "S", (codes "linux", 8 ∷ []) ∷ (codes "mac", 1 ∷ []) ∷ []) ∷ []

merge_expansions-platform_value_example :
    (m : Map (Map (List ℕ))) × (merge_expansions
        (some (in_expansion_at a_offsets))
        (some (in_expansion_at b_offsets))
      ≡ some (some (in_expansion_at m)))
    × (platform_value (codes "S") (codes "linux") m
        ≡ combine
            (λ x y. x ++ y)
            (platform_value (codes "S") (codes "linux") a_offsets)
            (platform_value (codes "S") (codes "linux") b_offsets))
unfolding get
merge_expansions-platform_value_example =
    merge_expansions-platform_value a_offsets b_offsets (codes "S") (codes "linux") (refl, tt)
      ((refl, (refl, tt)), tt)
