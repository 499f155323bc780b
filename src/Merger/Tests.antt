-- ===== src/Merger/Tests.antt =====
-- Runs of merger.rs at concrete inputs.
use mozsearch.Prelude.{◌≡◌, refl, true, false, none, some, List, [], ◌∷◌, map, codes, All}
use mozsearch.Analysis.Locations.{no_range}
use mozsearch.Analysis.Source.{AnalysisSource, confidences, sort, dedup}
use mozsearch.Analysis.Levels.{first_ones}
use mozsearch.Merger.{merge_bucket}
use mozsearch.Merger.Distinct.{Fits, merge_bucket-dedup}

abbrev g_record : AnalysisSource
g_record = record {
  syntax = codes "use" ∷ [];
  pretty = codes "function g";
  syms = codes "g" ∷ [];
  no_crossref = false;
  nesting_range = no_range;
  type_pretty = none;
  type_sym = none;
  arg_ranges = [];
  expansion_info = none;
  confidence = none;
}

abbrev f_record : AnalysisSource
f_record = record g_record { pretty = codes "function f"; syms = codes "f" ∷ [] }

abbrev bucket : List AnalysisSource
bucket = g_record ∷ f_record ∷ record g_record { syms = codes "g_mac" ∷ codes "g" ∷ [] } ∷ []

merge_bucket-dedup_example :
    (rs : List AnalysisSource) × (merge_bucket (first_ones []) bucket ≡ some rs)
    × (map (λ s. s.pretty) rs ≡ dedup (sort (map (λ s. s.pretty) bucket)))
    × All (Fits true) rs
unfolding confidences
merge_bucket-dedup_example =
    merge_bucket-dedup (first_ones []) (λ ts. refl) true bucket
      ((refl, refl), ((refl, refl), ((refl, refl), tt)))
