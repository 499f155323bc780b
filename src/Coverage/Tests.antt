-- ===== src/Coverage/Tests.antt =====
-- Runs of `interpolate_coverage` on inputs of the source's own tests, and the witnesses.
use mozsearch.Prelude.{ℕ, Option, none, some, List, [], ◌∷◌, ◌≡◌, refl, get_elem?}
use mozsearch.Coverage.{
  covered, uncovered, interpolated_hit, interpolated_miss, interpolate_coverage,
}
use mozsearch.Coverage.Spec.{line_spec, interpolate_coverage-line}

abbrev sample : List (Option ℕ)
sample = none ∷ some 0 ∷ none ∷ none ∷ some 0 ∷ none ∷ some 1 ∷ none ∷ []

sample_result :
    interpolate_coverage sample
    ≡ uncovered
      ∷ covered 0
      ∷ interpolated_miss
      ∷ interpolated_miss
      ∷ covered 0
      ∷ interpolated_hit
      ∷ covered 1
      ∷ uncovered
      ∷ []
unfolding interpolate_coverage
sample_result = refl

interpolate_coverage-line_example :
    get_elem? (interpolate_coverage sample) 3 ≡ line_spec sample 3 none
interpolate_coverage-line_example = interpolate_coverage-line sample 3
